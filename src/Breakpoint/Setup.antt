-- ===== src/Breakpoint/Setup.antt =====
-- breakpoint.c: setting the four breakpoints in a text without traps.
use memleax.Prelude.{
  ◌==◌, arith, ◌||◌, Bool, Option, ◌+◌, ◌<◌, ℕ, ◌≡◌, ◌≢◌, refl, some, false, true, ◌∙◌,
}
use memleax.Machine.{Target, Apart, word_at, trap_word, set_breakpoint}
use memleax.Machine.Image.{Image, Image-congr, TailFree, arm-Image, read_word}
use memleax.Breakpoint.{Api, malloc, free, realloc, calloc}
use memleax.Breakpoint.Table.{
  Breakpoints, Breakpoint, index, do_breakpoint_init, breakpoint_init, table,
}
use memleax.Breakpoint.Traps.{is_entry, no_trap}

module _ (target : Target) (pid : ℕ) (orig : ℕ → ℕ) (Text : ℕ → Type 0)
    (small : (a : ℕ) → orig a < 256) where
  open target use {State}

  abbrev original : ℕ → Breakpoint
  original a = record { entry_address = a; entry_code = word_at orig a }

  still :
      (s : State) (a code : ℕ)
      → target.in_stop s pid ≡ true
      → target.in_stop (set_breakpoint target s pid a code) pid ≡ true
  still s a code live = target.in_stop-poke s pid pid a (trap_word code) ∙ live

  -- Reading the code of one API and setting its breakpoint.
  do_breakpoint_init-Image :
      (s : State) (live : target.in_stop s pid ≡ true) (traps : ℕ → Bool) (a : ℕ)
      → a ≢ 0
      → TailFree traps a
      → traps a ≡ false
      → ((i : ℕ) → i < 8 → Text (a + i))
      → Image target pid orig Text s traps
      → (do_breakpoint_init target s pid a
          ≡ some (original a, set_breakpoint target s pid a (word_at orig a)))
        × Image target pid orig Text
            (set_breakpoint target s pid a (word_at orig a))
            (λ b. traps b || b == a)
  unfolding do_breakpoint_init
  do_breakpoint_init-Image s live traps a nonzero tail first text image =
      let same = target.shares_refl pid in
      let code =
        read_word target pid orig Text small pid same s live traps a image tail first text in
      (
        rw (is_false a nonzero, code) refl,
        arm-Image target pid orig Text small pid same s live traps a image tail,
      )
    where
      is_false : (n : ℕ) → n ≢ 0 → (n == 0) ≡ false
      is_false n h = ground (arith, h)

  -- The breakpoints at the addresses of `f`, with the codes that were there, and the text with
  -- these four traps.
  pub data Installed (f : Api → ℕ) : Option (Breakpoints × State) → Type 0 where
    installed :
        (bps : Breakpoints) (s : State)
        → ((x : Api) → (bps x).entry_address ≡ f x)
        → ((x : Api) → (bps x).entry_code ≡ word_at orig (bps x).entry_address)
        → Image target pid orig Text s (is_entry bps)
        → Installed f (some (bps, s))

  abbrev kept : (Api → ℕ) → Breakpoints
  kept f =
      table target (original (f malloc)) (original (f free)) (original (f realloc))
        (original (f calloc))

  address : (f : Api → ℕ) (x : Api) → (kept f x).entry_address ≡ f x
  address f malloc = refl
  address f free = refl
  address f realloc = refl
  address f calloc = refl

  code : (f : Api → ℕ) (x : Api) → (kept f x).entry_code ≡ word_at orig (kept f x).entry_address
  code f malloc = refl
  code f free = refl
  code f realloc = refl
  code f calloc = refl

  -- The target is stopped, and the symbols of the four functions have addresses, whose words are text and do not overlap: then
  -- memleax finds the original code of each and sets a trap at each, and the rest of the text is
  -- as it was.
  pub breakpoint_init-Installed :
      (s : State) (symtab_by_name : Api → ℕ)
      → ((x : Api) → symtab_by_name x ≢ 0)
      → ((x y : Api) → index x ≢ index y → Apart (symtab_by_name x) (symtab_by_name y))
      → ((x : Api) (i : ℕ) → i < 8 → Text (symtab_by_name x + i))
      → Image target pid orig Text s no_trap
      → target.in_stop s pid ≡ true
      → Installed symtab_by_name (breakpoint_init target s pid symtab_by_name)
  unfolding breakpoint_init
  breakpoint_init-Installed s f nonzero apart text image live =
      let mf = apart malloc free (omega arith) in
      let mr = apart malloc realloc (omega arith) in
      let mc = apart malloc calloc (omega arith) in
      let fr = apart free realloc (omega arith) in
      let fc = apart free calloc (omega arith) in
      let rc = apart realloc calloc (omega arith) in
      let (e₁, i₁) =
        do_breakpoint_init-Image s live no_trap (f malloc) (nonzero malloc) (λ b lo hi. refl) refl
          (text malloc) image in
      let live₁ = still _ (f malloc) (word_at orig (f malloc)) live in
      let (e₂, i₂) =
        do_breakpoint_init-Image _ live₁ (λ b. b == f malloc) (f free) (nonzero free)
          (λ b lo hi. ground (arith, mf)) (ground (arith, mf)) (text free) i₁ in
      let live₂ = still _ (f free) (word_at orig (f free)) live₁ in
      let (e₃, i₃) =
        do_breakpoint_init-Image _ live₂ (λ b. b == f malloc || b == f free) (f realloc)
          (nonzero realloc) (λ b lo hi. ground (arith, mr, fr)) (ground (arith, mr, fr))
          (text realloc) i₂ in
      let live₃ = still _ (f realloc) (word_at orig (f realloc)) live₂ in
      let (e₄, i₄) =
        do_breakpoint_init-Image _ live₃ (λ b. (b == f malloc || b == f free) || b == f realloc)
          (f calloc) (nonzero calloc) (λ b lo hi. ground (arith, mc, fc, rc))
          (ground (arith, mc, fc, rc)) (text calloc) i₃ in
      rw (e₁, e₂, e₃, e₄)
        (installed (kept f) _ (address f) (code f) (
          Image-congr target pid orig Text _
            (λ b. ((b == f malloc || b == f free) || b == f realloc) || b == f calloc) _
            (λ b. ground arith) i₄))
