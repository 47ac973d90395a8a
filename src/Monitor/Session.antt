-- ===== src/Monitor/Session.antt =====
-- From the set-up to the clean-up: what memleax leaves of the text of its target.

use memleax.Prelude.{
  ◌⊎◌, inl, inr, Bool-cases, ◌+◌, [], subst, ◌<◌, ℕ, refl, none, some, true, false, ◌≢◌, ◌≡◌,
}
use memleax.State.{initial}
use memleax.Machine.{Target, Apart, word_at}
use memleax.Machine.Image.{Image}
use memleax.Breakpoint.{Api}
use memleax.Breakpoint.Table.{Breakpoints, index, breakpoint_init}
use memleax.Breakpoint.Traps.{Spaced, is_entry, no_trap}
use memleax.Breakpoint.Setup.{Installed, installed, breakpoint_init-Installed}
use memleax.Monitor.{Monitor, Options, finish}
use memleax.Monitor.Text.{Setting, Armed, Layout, inside}
use memleax.Monitor.Finish.{Runs, run-Image, run-Layout}

-- The variables of `main` before the first round.
abbrev pub begun : (target : Target) → target.State → Monitor target
begun target s = record {
  memory = s;
  tracker = initial;
  bp = none;
  return_address = 0;
  return_code = 0;
  arg1 = 0;
  arg2 = 0;
  last_thread = 0;
  hold_threads = [];
  signo = 0;
  actions = [];
}

-- A stopped target without traps: the bytes of its text, and the addresses of the four functions, which are text and
-- do not overlap.
pub record Untouched (target : Target) (pid : ℕ) (s : target.State) (symtab_by_name : Api → ℕ)
    : Type 1 where
  pub orig : ℕ → ℕ
  pub Text : ℕ → Type 0
  pub small : (a : ℕ) → orig a < 256
  pub nonzero : (x : Api) → symtab_by_name x ≢ 0
  pub apart : (x y : Api) → index x ≢ index y → Apart (symtab_by_name x) (symtab_by_name y)
  pub texts : (x : Api) (i : ℕ) → i < 8 → Text (symtab_by_name x + i)
  pub image : Image target pid orig Text s no_trap
  pub live : target.in_stop s pid ≡ true

module _ (target : Target) (pid : ℕ) (s : target.State) (symtab_by_name : Api → ℕ)
    (options : Options) (u : Untouched target pid s symtab_by_name) (bps : Breakpoints)
    (s' : target.State) (e : breakpoint_init target s pid symtab_by_name ≡ some (bps, s')) where
  pub installed_lem : Installed target pid u.orig u.Text u.small symtab_by_name (some (bps, s'))
  installed_lem = subst (Installed target pid u.orig u.Text u.small symtab_by_name) e (
      breakpoint_init-Installed target pid u.orig u.Text u.small s symtab_by_name u.nonzero u.apart
        u.texts u.image u.live)

  pub facts :
      Installed target pid u.orig u.Text u.small symtab_by_name (some (bps, s'))
      → ((x : Api) → (bps x).entry_address ≡ symtab_by_name x)
        × ((x : Api) → (bps x).entry_code ≡ word_at u.orig (bps x).entry_address)
        × Image target pid u.orig u.Text s' (is_entry bps)
  facts (installed bps' s'' address code image) = (address, code, image)

  pub address : (x : Api) → (bps x).entry_address ≡ symtab_by_name x
  address = (facts installed_lem).0

  pub bps-Spaced : Spaced bps
  bps-Spaced x y different = rw (address x, address y) (u.apart x y different)

  -- The breakpoints that breakpoint_init sets.
  abbrev pub setting_of : Setting
  setting_of = record {
    target_pid = pid;
    orig = u.orig;
    Text = u.Text;
    small = u.small;
    bps = bps;
    spaced = bps-Spaced;
    texts = λ x i h. rw (address x) (u.texts x i h);
    codes = (facts installed_lem).1;
    options = options;
  }

  begun-Armed : Armed target setting_of (begun target s')
  begun-Armed = record { layout = (facts installed_lem).2; point = λ h. absurd (h refl) }

  -- The target is stopped and has no traps before, the four functions have addresses in its text
  -- and do not overlap, and breakpoint_init succeeds. The loop then runs, each of its rounds fair,
  -- and ends. If the target itself is stopped at the end, then after the clean-up every byte of
  -- its text is what it was before memleax set its first breakpoint. If it is not, as when the
  -- loop ends at a stop of another thread, the clean-up leaves every trap in its text: at the four
  -- entries, or inside a function at its return address in place of its entry.
  pub finish-breakpoint_init :
      (n : Monitor target)
      → Runs target setting_of (begun target s') n
      → ((target.in_stop n.memory pid ≡ true)
          × Image target pid u.orig u.Text (finish target options bps pid n).memory no_trap)
        ⊎ ((target.in_stop n.memory pid ≡ false)
            × Layout target setting_of
                (inside target setting_of n)
                (finish target options bps pid n).memory
                n.return_address)
  finish-breakpoint_init n runs = elim (Bool-cases (target.in_stop n.memory pid)) [
    | inl live ↦ inl (live, run-Image target setting_of (begun target s') n begun-Armed runs live)
    | inr running ↦
        inr (running, run-Layout target setting_of (begun target s') n begun-Armed runs running)
  ]
