-- ===== src/Breakpoint/Traps.antt =====
-- The four breakpoints in the text of the target: entering a function, coming back from it, and
-- taking them all away.
use memleax.Prelude.{
  ◌∙◌, ℕ, ◌+◌, ◌≤◌, ◌<◌, ◌≡◌, ◌≢◌, Bool, true, false, not, ◌&&◌, ◌||◌, arith, ◌==◌, inl,
}
use memleax.Machine.{Target, Apart, word_at, ptrace_get_data, ptrace_set_data, set_breakpoint}
use memleax.Machine.Image.{Image, Image-congr, TailFree, restore-Image, arm-Image, read_word}
use memleax.Breakpoint.{Api, malloc, free, realloc, calloc}
use memleax.Breakpoint.Table.{Breakpoints, index, breakpoint_cleanup}

-- The addresses of the breakpoints, and those without one of them.
abbrev pub is_entry : Breakpoints → ℕ → Bool
is_entry bps b =
    b == (bps malloc).entry_address
    || b == (bps free).entry_address
    || b == (bps realloc).entry_address
    || b == (bps calloc).entry_address

abbrev pub no_trap : ℕ → Bool
no_trap b = false

-- The words at the entries do not overlap.
abbrev pub Spaced : Breakpoints → Type 0
Spaced bps = (x y : Api) → index x ≢ index y → Apart (bps x).entry_address (bps y).entry_address

-- The word at an address overlaps none of them.
abbrev pub Far : Breakpoints → ℕ → Type 0
Far bps a = (x : Api) → Apart (bps x).entry_address a

module _ (bps : Breakpoints) (spaced : Spaced bps) where
  pub tail_free :
      (x : Api) (b : ℕ)
      → (bps x).entry_address < b
      → b < (bps x).entry_address + 8
      → is_entry bps b ≡ false
  tail_free malloc b lo hi = ground (
    arith,
    spaced malloc free (omega arith),
    spaced malloc realloc (omega arith),
    spaced malloc calloc (omega arith),
  )
  tail_free free b lo hi = ground (
    arith,
    spaced free malloc (omega arith),
    spaced free realloc (omega arith),
    spaced free calloc (omega arith),
  )
  tail_free realloc b lo hi = ground (
    arith,
    spaced realloc malloc (omega arith),
    spaced realloc free (omega arith),
    spaced realloc calloc (omega arith),
  )
  tail_free calloc b lo hi = ground (
    arith,
    spaced calloc malloc (omega arith),
    spaced calloc free (omega arith),
    spaced calloc realloc (omega arith),
  )

  pub is_entry_at : (x : Api) (b : ℕ) → b ≡ (bps x).entry_address → is_entry bps b ≡ true
  is_entry_at malloc b e = ground arith
  is_entry_at free b e = ground arith
  is_entry_at realloc b e = ground arith
  is_entry_at calloc b e = ground arith

  pub Far-free : (a : ℕ) → Far bps a → (b : ℕ) → a ≤ b → b < a + 8 → is_entry bps b ≡ false
  Far-free a far b lo hi = ground (arith, far malloc, far free, far realloc, far calloc)

  -- An address where no entry is.
  pub beyond : ℕ
  beyond =
      (bps malloc).entry_address
      + (bps free).entry_address
      + (bps realloc).entry_address
      + (bps calloc).entry_address
      + 8

  pub beyond-Far : Far bps beyond
  unfolding beyond
  beyond-Far malloc = inl (omega arith)
  beyond-Far free = inl (omega arith)
  beyond-Far realloc = inl (omega arith)
  beyond-Far calloc = inl (omega arith)

module _ (target : Target) (pid : ℕ) (orig : ℕ → ℕ) (Text : ℕ → Type 0)
    (small : (a : ℕ) → orig a < 256) (bps : Breakpoints) (spaced : Spaced bps)
    (codes : (x : Api) → (bps x).entry_code ≡ word_at orig (bps x).entry_address) (task : ℕ)
    (same : target.shares task pid ≡ true) where
  open target use {State}

  -- A write leaves the task in its stop.
  pub still :
      (s : State) (a w : ℕ)
      → target.in_stop s task ≡ true
      → target.in_stop (ptrace_set_data target s task a w) task ≡ true
  still s a w live = target.in_stop-poke s task task a w ∙ live

  -- Every entry is trapped; inside a function, every other entry and the return address.
  abbrev pub Trapped : State → Type 0
  Trapped s = Image target pid orig Text s (is_entry bps)

  abbrev pub Inside : State → Api → ℕ → Type 0
  Inside s x a =
      Image target pid orig Text s
        (λ b. is_entry bps b && not (b == (bps x).entry_address) || b == a)

  abbrev back : State → Api → ℕ → State
  back s x a =
      set_breakpoint target (ptrace_set_data target s task a (word_at orig a)) task
        (bps x).entry_address (bps x).entry_code

  pub back-Trapped :
      (s : State) (live : target.in_stop s task ≡ true) (x : Api) (a : ℕ)
      → Far bps a
      → Inside s x a
      → Trapped (back s x a)
  back-Trapped s live x a far image = rw (codes x) (
      Image-congr target pid orig Text _ _ _
        (λ b. ground (arith, is_entry_at bps spaced x b, Far-free bps spaced a far b))
        (arm-Image target pid orig Text small task same _ (still _ _ _ live) _ _
          (restore-Image target pid orig Text small task same s live _ a image
            (λ b lo hi. ground (arith, Far-free bps spaced a far b)))
          (λ b lo hi. ground (arith, tail_free bps spaced x b, far x))))

  pub enter-Inside :
      (s : State) (live : target.in_stop s task ≡ true) (x : Api) (a : ℕ)
      → Far bps a
      → ((i : ℕ) → i < 8 → Text (a + i))
      → Trapped s
      → let s₁ = ptrace_set_data target s task (bps x).entry_address (bps x).entry_code in
        (ptrace_get_data target s₁ task a ≡ word_at orig a)
        × Inside (set_breakpoint target s₁ task a (word_at orig a)) x a
  enter-Inside s live x a far text image = rw (codes x) (
    read_word target pid orig Text small task same _ (still _ _ _ live) _ a out tail first text,
    arm-Image target pid orig Text small task same _ (still _ _ _ live) _ a out tail,
  )
    where
      out :
          Image target pid orig Text
            (ptrace_set_data target s task
              (bps x).entry_address
              (word_at orig (bps x).entry_address))
            (λ b. is_entry bps b && not (b == (bps x).entry_address))
      out =
          restore-Image target pid orig Text small task same s live (is_entry bps)
            (bps x).entry_address image (tail_free bps spaced x)

      tail : TailFree (λ b. is_entry bps b && not (b == (bps x).entry_address)) a
      tail b lo hi = ground (arith, Far-free bps spaced a far b)

      first : is_entry bps a && not (a == (bps x).entry_address) ≡ false
      first = ground (arith, Far-free bps spaced a far a)

  -- The traps that `breakpoint_cleanup` leaves.
  abbrev pub left_over : (ℕ → Bool) → ℕ → Bool
  left_over traps b = traps b && not (is_entry bps b)

  -- Whatever traps stand at entries and at one address apart from them, a cleanup by a stopped task takes away
  -- those at entries and changes nothing else of the text.
  pub breakpoint_cleanup-Image :
      (s : State) (live : target.in_stop s task ≡ true) (traps : ℕ → Bool) (a : ℕ)
      → Far bps a
      → ((b : ℕ) → traps b ≡ true → is_entry bps b || b == a ≡ true)
      → Image target pid orig Text s traps
      → Image target pid orig Text (breakpoint_cleanup target s task bps) (left_over traps)
  unfolding breakpoint_cleanup
  breakpoint_cleanup-Image s live traps a far within image =
      let live₁ =
        still _ (bps malloc).entry_address (word_at orig (bps malloc).entry_address) live in
      let live₂ = still _ (bps free).entry_address (word_at orig (bps free).entry_address) live₁ in
      let live₃ =
        still _ (bps realloc).entry_address (word_at orig (bps realloc).entry_address) live₂ in
      rw (codes malloc, codes free, codes realloc, codes calloc)
        (Image-congr target pid orig Text _ _ _ (λ b. ground arith)
          (restore-Image target pid orig Text small task same _ live₃ _ _
            (restore-Image target pid orig Text small task same _ live₂ _ _
              (restore-Image target pid orig Text small task same _ live₁ _ _
                (restore-Image target pid orig Text small task same s live traps _ image
                  (tail malloc))
                (λ b lo hi. ground (arith, tail free b lo hi)))
              (λ b lo hi. ground (arith, tail realloc b lo hi)))
            (λ b lo hi. ground (arith, tail calloc b lo hi))))
    where
      tail : (x : Api) → TailFree traps (bps x).entry_address
      tail x b lo hi = ground (arith, within b, tail_free bps spaced x b lo hi, far x)
