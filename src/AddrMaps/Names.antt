-- ===== src/AddrMaps/Names.antt =====
-- addr_maps.c: the name of a map, described by where the last slash and the first ".so" of its path stand.
use Prim.Native.Nat.{min}
use memleax.Prelude.{
  All, arith, ◌==◌, ltb, Bool-cases, inl, inr, ap, length, length-append, ◌≤◌, ℕ, zero, suc, Bool,
  true, false, Option, none, some, List, [], ◌∷◌, ◌++◌, ◌≡◌, ◌≢◌, refl, if◌then◌else◌,
}
use memleax.ProcInfo.{Map}
use memleax.DebugFile.{split_path}
use memleax.AddrMaps.{AddrMap}
use memleax.AddrMaps.Table.{dot_so, begins, up_to_so, take, stored_name, addr_maps_build_file}

abbrev pub NoSlash : List ℕ → Type 0
NoSlash text = All (λ c. c ≢ b'/') text

data Split (path : List ℕ) : Option (List ℕ × List ℕ) → Type 0 where
  at_slash :
      (dir base : List ℕ) → path ≡ dir ++ b'/' ∷ base → NoSlash base → Split path (some (dir, base))
  no_slash : NoSlash path → Split path none

split_path-Split : (path : List ℕ) → Split path (split_path path)
split_path-Split [] = no_slash tt
split_path-Split (c ∷ rest) = longer (split_path rest) (split_path-Split rest)
  where
    longer :
        (o : Option (List ℕ × List ℕ))
        → Split rest o
        → Split (c ∷ rest) (elim o as (λ o'. Option (List ℕ × List ℕ)) [
          | some (dir, name) ↦ some (c ∷ dir, name)
          | none ↦ if c == b'/' then some ([], rest) else none
        ])
    longer (some (d, b)) (at_slash dir base e h) = at_slash (c ∷ dir) base (ap (λ l. c ∷ l) e) h
    longer none (no_slash h) = elim (Bool-cases (c == b'/')) [
      | inl e ↦
          let slash : c ≡ b'/' = ground (arith, e) in
          rw e (at_slash [] rest (ap (λ d. d ∷ rest) slash) h)
      | inr e ↦ rw e (no_slash ((λ s. ground (arith, e, s)), h))
    ]

-- A ".so" stands in a text behind `u`.
abbrev pub Occurs : List ℕ → List ℕ → List ℕ → Type 0
Occurs base u v = base ≡ u ++ dot_so ++ v

data Stem (base : List ℕ) : Option (List ℕ) → Type 0 where
  first_so :
      (stem version : List ℕ)
      → Occurs base stem version
      → ((u v : List ℕ) → Occurs base u v → length stem ≤ length u)
      → Stem base (some (stem ++ dot_so))
  no_so : ((u v : List ℕ) → ¬ Occurs base u v) → Stem base none

begins-prefix : (p text : List ℕ) → begins p text ≡ true → (v : List ℕ) × (text ≡ p ++ v)
begins-prefix [] text h = (text, refl)
begins-prefix (c ∷ p) [] h = absurd (ground (arith, h))
begins-prefix (c ∷ p) (d ∷ text) h =
    let (v, e) = begins-prefix p text (ground (arith, h)) in
    let same : d ≡ c = ground (arith, h) in (v, (λ i. same i ∷ e i))

tail_of : (c d : ℕ) (l k : List ℕ) → c ∷ l ≡ d ∷ k → l ≡ k
tail_of c d l k e = cc

nothing : (u v : List ℕ) → ¬ Occurs [] u v
nothing [] v h = cc
nothing (c ∷ u) v h = cc

up_to_so-Stem : (base : List ℕ) → Stem base (up_to_so base)
up_to_so-Stem [] = no_so nothing
up_to_so-Stem (c ∷ rest) =
    longer (begins dot_so (c ∷ rest)) refl (up_to_so rest) (up_to_so-Stem rest)
  where
    later :
        begins dot_so (c ∷ rest) ≡ false
        → (u v : List ℕ) → Occurs (c ∷ rest) u v
        → (w : List ℕ) × (length u ≡ suc (length w)) × Occurs rest w v
    later e [] v h =
        let yes' : begins dot_so (c ∷ rest) ≡ true = ap (begins dot_so) h in
        absurd (ground (e, yes', arith))
    later e (d ∷ u) v h = (u, refl, tail_of c d rest (u ++ dot_so ++ v) h)

    longer :
        (b : Bool)
        → begins dot_so (c ∷ rest) ≡ b
        → (o : Option (List ℕ)) → Stem rest o
        → Stem (c ∷ rest) (elim b as (λ b'. Option (List ℕ)) [
          | true ↦ some dot_so
          | false ↦ elim o as (λ o'. Option (List ℕ)) [ none ↦ none | some name ↦ some (c ∷ name) ]
        ])
    longer true e o h =
        let (v, e') = begins-prefix dot_so (c ∷ rest) e in first_so [] v e' (λ u w h'. omega arith)
    longer false e (some name) (first_so stem version at first) =
        first_so (c ∷ stem) version (ap (λ l. c ∷ l) at)
          (λ u v h. let (w, n, at') = later e u v h in omega (arith, n, first w v at'))
    longer false e none (no_so out) =
        no_so (λ u v h. let (w, n, at') = later e u v h in out w v at')

-- The name of a library ends with the first ".so" of its file name; another is its file name, as far as it
-- fits into 99 bytes.
pub data NameOf (base : List ℕ) : List ℕ → Type 0 where
  library :
      (stem version : List ℕ)
      → Occurs base stem version
      → ((u v : List ℕ) → Occurs base u v → length stem ≤ length u)
      → NameOf base (stem ++ dot_so)
  other :
      (name rest : List ℕ)
      → ((u v : List ℕ) → ¬ Occurs base u v)
      → base ≡ name ++ rest
      → length name ≡ min 99 (length base)
      → NameOf base name

-- If a ".so" stands in a name at all, then one with at most 96 bytes before.
abbrev pub Short : List ℕ → Type 0
Short base =
    (u v : List ℕ)
    → Occurs base u v
    → (u' : List ℕ) × (v' : List ℕ) × Occurs base u' v' × (length u' ≤ 96)

take-prefix :
    (n : ℕ) (text : List ℕ)
    → (rest : List ℕ) × (text ≡ take n text ++ rest) × (length (take n text) ≡ min n (length text))
take-prefix zero text = (text, refl, omega arith)
take-prefix (suc n) [] = ([], refl, omega arith)
take-prefix (suc n) (c ∷ text) =
    let (rest, e, len) = take-prefix n text in (rest, ap (λ l. c ∷ l) e, omega (arith, len))

stored_name-NameOf :
    (base : List ℕ) (o : Option (List ℕ))
    → Stem base o
    → Short base
    → (name : List ℕ) × (stored_name base o ≡ some name) × NameOf base name
stored_name-NameOf base none (no_so out) short =
    let (rest, e, len) = take-prefix 99 base in
    (take 99 base, refl, other (take 99 base) rest out e len)
stored_name-NameOf base (some name) (first_so stem version at first) short =
    let (u, v, at', few) = short stem version at in
    let fits : ltb 99 (length (stem ++ dot_so)) ≡ false =
      ground (arith, few, first u v at', length-append stem dot_so) in
    (stem ++ dot_so, rw fits refl, library stem version at first)

-- A path with a slash, and behind the last a name that fits.
pub record Fits (m : Map) : Type 0 where
  pub slash : ¬ NoSlash m.path
  pub short : (dir base : List ℕ) → m.path ≡ dir ++ b'/' ∷ base → NoSlash base → Short base

-- The addresses of a map, and a name for what stands behind the last slash of its path.
pub record Entry (m : Map) (am : AddrMap) : Type 0 where
  pub start : am.start ≡ m.start
  pub end : am.end ≡ m.end
  pub dir : List ℕ
  pub base : List ℕ
  pub path : m.path ≡ dir ++ b'/' ∷ base
  pub last : NoSlash base
  pub name : NameOf base am.name

-- A map whose name fits has an entry.
pub addr_maps_build_file-Entry :
    (m : Map)
    → Fits m
    → (am : AddrMap) × (addr_maps_build_file m.path m.start m.end ≡ some am) × Entry m am
unfolding addr_maps_build_file
addr_maps_build_file-Entry m fits = split_at (split_path m.path) (split_path-Split m.path)
  where
    named : List ℕ → Option (List ℕ) → Option AddrMap
    named base o = elim (stored_name base o) [
      | none ↦ none
      | some name ↦ some (record { start = m.start; end = m.end; name = name })
    ]

    split_at :
        (o : Option (List ℕ × List ℕ))
        → Split m.path o
        → (am : AddrMap) × ((elim o as (λ o'. Option AddrMap) [
          | none ↦ none
          | some (dir, base) ↦ elim (stored_name base (up_to_so base)) [
            | none ↦ none
            | some name ↦ some (record { start = m.start; end = m.end; name = name })
          ]
        ])
            ≡ some am)
          × Entry m am
    split_at none (no_slash h) = absurd (fits.slash h)
    split_at (some (d, b)) (at_slash dir base e h) =
        let (name, e', n) =
          stored_name-NameOf base (up_to_so base) (up_to_so-Stem base) (fits.short dir base e h) in
        (
          record { start = m.start; end = m.end; name = name },
          rw e' refl,
          record { start = refl; end = refl; dir = dir; base = base; path = e; last = h; name = n },
        )

-- A path of at most 96 bytes fits.
pub short_path-Fits : (m : Map) → ¬ NoSlash m.path → length m.path ≤ 96 → Fits m
short_path-Fits m slash few = record {
  slash = slash;
  short = λ dir base e h u v at. (
    u,
    v,
    at,
    (let whole : length m.path ≡ length (dir ++ b'/' ∷ base) = ap length e in
        let part : length base ≡ length (u ++ dot_so ++ v) = ap length at in
        omega (
          arith,
          few,
          whole,
          part,
          length-append dir (b'/' ∷ base),
          length-append u (dot_so ++ v),
          length-append (u ++ dot_so) v,
          length-append u dot_so,
        )),
  );
}
