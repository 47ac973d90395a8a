-- ===== src/ProcInfo.antt =====
-- proc_info.c: the walks, on GNU/Linux, over /proc/pid/maps and /proc/pid/task. What the kernel's files
-- hold is given: a line as `sscanf` reads it, and the names of a directory as `atoi` reads them.
pub mod Walks
pub mod Repeats
pub mod Freebsd
use memleax.Prelude.{
  ℕ, zero, suc, Bool, true, false, not, ◌&&◌, Option, none, some, List, [], ◌∷◌, if◌then◌else◌,
  ◌==◌, get_elem?, same_string,
}

-- What `sscanf` reads of a line: how many of its nine items, the addresses, the permissions and the
-- path.
pub record Line : Type 0 where
  pub items : ℕ
  pub start : ℕ
  pub end : ℕ
  pub perms : List ℕ
  pub path : List ℕ

-- What stands behind /proc/pid: the maps and the program's path (`none` for one that cannot be
-- opened), and the entries of the task directory.
pub record Proc : Type 0 where
  pub maps : Option (List Line)
  pub exe : Option (List ℕ)
  pub task : Option (List ℕ)

-- What a call gives: an item; NULL or 0 at the end; or the end of memleax.
pub data Next {ℓ} (A : Type ℓ) : Type ℓ where
  item : A → Next A
  over : Next A
  exits : Next A

-- A map: its addresses, its path, and whether it is the program's own file.
pub record Map : Type 0 where
  pub start : ℕ
  pub end : ℕ
  pub path : List ℕ
  pub exe_self : Bool

abbrev pub is_at : List ℕ → ℕ → ℕ → Bool
is_at text i c = elim (get_elem? text i) [ none ↦ false | some d ↦ d == c ]

-- `ret == 8 && perms[2] == 'x' && ret_path[0] == '/'`
abbrev pub is_code : Line → Bool
is_code line = line.items == 8 && is_at line.perms 2 b'x' && is_at line.path 0 b'/'

abbrev pub map_of : List ℕ → Line → Map
map_of exe_name line = record {
  start = line.start;
  end = line.end;
  path = line.path;
  exe_self = same_string line.path exe_name;
}

-- `filp` and `exe_name`: the lines that are still to read while the file is open.
abbrev pub Maps : Type 0
Maps = Option (List Line × List ℕ)

unfoldable pub fgets_loop : List ℕ → List Line → Next Map × Maps
fgets_loop exe_name [] = (over, none)
fgets_loop exe_name (line ∷ rest) =
    let later = fgets_loop exe_name rest in
    if is_code line then (item (map_of exe_name line), some (rest, exe_name)) else later

abbrev opened : Option (List Line) → Option (List ℕ) → Next Map × Maps
opened none exe = (exits, none)
opened (some lines) none = (exits, none)
opened (some lines) (some exe_name) = fgets_loop exe_name lines

unfoldable pub proc_maps : Proc → Maps → Next Map × Maps
unfolding fgets_loop
proc_maps proc none = opened proc.maps proc.exe
proc_maps proc (some (lines, exe_name)) = fgets_loop exe_name lines

-- `dirp`: the entries that are still to read while the directory is open.
abbrev pub Tasks : Type 0
Tasks = Option (List ℕ)

unfoldable pub readdir_loop : List ℕ → Next ℕ × Tasks
readdir_loop [] = (over, none)
readdir_loop (task_id ∷ rest) =
    let later = readdir_loop rest in if not (task_id == 0) then (item task_id, some rest) else later

unfoldable pub proc_tasks : Proc → Tasks → Next ℕ × Tasks
unfolding readdir_loop
proc_tasks proc (some entries) = readdir_loop entries
proc_tasks proc none = elim proc.task [ none ↦ (exits, none) | some entries ↦ readdir_loop entries ]

abbrev pub check_loop : ℕ → List ℕ → Bool
check_loop child [] = false
check_loop child (entry ∷ rest) =
    let later = check_loop child rest in if entry == child then true else later

-- `none`: the directory cannot be opened, and memleax exits.
unfoldable pub proc_task_check : Proc → ℕ → Option Bool
proc_task_check proc child = elim proc.task [
  | none ↦ none
  | some entries ↦ some (check_loop child entries)
]
