-- ===== src/Multiproc/Filter.antt =====
-- source/multiproc/sandbox.c: which system calls the filter that is loaded lets pass.
use torr.Prelude.{
  ℕ, Bool, true, false, List, [], ◌∷◌, Option, none, some, ◌≡◌, refl, sym, ap, ◌∙◌, bytes_eq, ◌&&◌,
  ◌||◌, get_or, bytes, if◌then◌else◌, inl, inr, Bool-cases, Option-cases,
}
use torr.Multiproc.Sandbox.{
  Rule, Arguments, is_for, Seccomp, seccomp_filter_whitelist, mprotect_rule, add_rules, SystemCalls,
  sandbox_landlock_process, custom_seccomp_filter_mmap, load_filter, sandbox_seccomp_filter_process,
  is_member, is_permitted, dead, killed, landlock_create_ruleset, mask_of, handled_access_fs,
}

none-some {ℓ} : {A : Type ℓ} {a : A} → ¬ (none ≡ some a)
none-some e = cc

or_false : (b : Bool) → (b || false) ≡ b
or_false true = refl
or_false false = refl

or_assoc : (a b c : Bool) → ((a || b) || c) ≡ (a || (b || c))
or_assoc true b c = refl
or_assoc false b c = refl

and_true : (b : Bool) → (b && true) ≡ b
and_true true = refl
and_true false = refl

-- To add a rule again lets nothing more pass.
or_again : (a b : Bool) → ((a || b) || b) ≡ (a || b)
or_again true b = refl
or_again false true = refl
or_again false false = refl

module _ {C : Type 0} (seccomp : Seccomp C) (s : List ℕ) (arguments : Arguments) where
  abbrev passes : C → Bool
  passes c = seccomp.allows c s arguments

  -- What a result lets pass, where there is one.
  abbrev passes? : Bool → Option C → Bool
  passes? b none = b
  passes? b (some c) = passes c

  add_rules-allows :
      (names : List (List ℕ)) (c c' : C)
      → add_rules seccomp names c ≡ some c'
      → passes c' ≡ (passes c || is_member names s)
  unfolding add_rules
  add_rules-allows [] c c' h = sym (ap (passes? false) h) ∙ sym (or_false (passes c))
  add_rules-allows (name ∷ rest) c c' h =
      let r : Rule = record { system_call = name; condition = none } in
      elim (Option-cases (seccomp.rule_add c r)) [
        | inl e ↦
            let stopped : add_rules seccomp (name ∷ rest) c ≡ none = rw (e, add_rules) refl in
            absurd (none-some (sym stopped ∙ h))
        | inr (x, e) ↦
            let more : add_rules seccomp (name ∷ rest) c ≡ add_rules seccomp rest x =
              rw (e, add_rules) refl in
            add_rules-allows rest x c' (sym more ∙ h)
            ∙ ap (λ (b : Bool). b || is_member rest s)
                (seccomp.rule_add_allows c x r s arguments e
                  ∙ ap (λ (b : Bool). passes c || b) (and_true (bytes_eq name s)))
            ∙ or_assoc (passes c) (bytes_eq name s) (is_member rest s)
      ]

  abbrev about : Bool
  about = is_for mprotect_rule s arguments

  load_filter-allows :
      (c c' : C) → load_filter seccomp c ≡ some c' → passes c' ≡ (passes c || about)
  unfolding load_filter
  load_filter-allows c c' h = elim (Option-cases (seccomp.rule_add c mprotect_rule)) [
    | inl e ↦
        let stopped : load_filter seccomp c ≡ none = rw (e, load_filter) refl in
        absurd (none-some (sym stopped ∙ h))
    | inr (x, e) ↦ elim (Bool-cases (seccomp.load x)) [
      | inl l ↦
          let loaded : load_filter seccomp c ≡ some x = rw (e, load_filter) (rw l refl) in
          sym (ap (passes? false) (sym loaded ∙ h))
          ∙ seccomp.rule_add_allows c x mprotect_rule s arguments e
      | inr l ↦
          let stopped : load_filter seccomp c ≡ none = rw (e, load_filter) (rw l refl) in
          absurd (none-some (sym stopped ∙ h))
    ]
  ]

  -- With or without the rule of the function, the rule that is added behind it decides.
  custom_seccomp_filter_mmap-allows :
      (c : C) → (passes (custom_seccomp_filter_mmap seccomp c) || about) ≡ (passes c || about)
  unfolding custom_seccomp_filter_mmap
  custom_seccomp_filter_mmap-allows c = elim (Option-cases (seccomp.rule_add c mprotect_rule)) [
    | inl e ↦ rw (e, custom_seccomp_filter_mmap) refl
    | inr (x, e) ↦
        rw (e, custom_seccomp_filter_mmap)
          (ap (λ (b : Bool). b || about) (seccomp.rule_add_allows c x mprotect_rule s arguments e)
            ∙ or_again (passes c) about)
  ]

  -- Where `sandbox_seccomp_filter_process` returns true, the filter that it has loaded lets exactly
  -- the system calls of the whitelist pass, whatever their arguments, and `mprotect` where its third
  -- argument is to read and write, and so never to execute.
  pub sandbox_seccomp_filter_process-allows :
      (c : C)
      → sandbox_seccomp_filter_process seccomp ≡ some c
      → seccomp.allows c s arguments ≡ is_permitted s arguments
  unfolding sandbox_seccomp_filter_process
  sandbox_seccomp_filter_process-allows c h =
      elim (Option-cases (add_rules seccomp seccomp_filter_whitelist seccomp.init)) [
        | inl e ↦
            let stopped : sandbox_seccomp_filter_process seccomp ≡ none =
              rw (e, sandbox_seccomp_filter_process) refl in
            absurd (none-some (sym stopped ∙ h))
        | inr (x, e) ↦
            let loaded : sandbox_seccomp_filter_process seccomp
                ≡ load_filter seccomp (custom_seccomp_filter_mmap seccomp x) =
              rw (e, sandbox_seccomp_filter_process) refl in
            load_filter-allows (custom_seccomp_filter_mmap seccomp x) c (sym loaded ∙ h)
            ∙ custom_seccomp_filter_mmap-allows x
            ∙ ap (λ (b : Bool). b || about)
                (add_rules-allows seccomp_filter_whitelist seccomp.init x e
                  ∙ ap (λ (b : Bool). b || is_member seccomp_filter_whitelist s)
                      (seccomp.init_allows_nothing s arguments))
      ]

module _ {C : Type 0} (seccomp : Seccomp C) (c : C) where
  -- The system calls of a process under a filter, whose action is to kill the process at one that it
  -- does not let pass.
  abbrev pub filtered : SystemCalls → SystemCalls
  filtered syscall name arguments =
      if seccomp.allows c name (λ (i : ℕ). get_or arguments i 0)
      then syscall name arguments
      else dead

  not_permitted :
      (syscall : SystemCalls) (name arguments : List ℕ)
      → sandbox_seccomp_filter_process seccomp ≡ some c
      → is_permitted name (λ (i : ℕ). get_or arguments i 0) ≡ false
      → filtered syscall name arguments ≡ dead
  not_permitted syscall name arguments h e =
      rw (sandbox_seccomp_filter_process-allows seccomp name (λ (i : ℕ). get_or arguments i 0) c h)
        (rw e refl)

  -- Once the filter of `sandbox_seccomp_filter_process` is loaded, with the action that kills, a
  -- process does not come back from `sandbox_landlock_process`, whatever the kernel would answer to
  -- its system calls: it is killed.
  pub sandbox_landlock_process-filtered :
      (syscall : SystemCalls)
      → sandbox_seccomp_filter_process seccomp ≡ some c
      → sandbox_landlock_process (filtered syscall) ≡ killed
  unfolding sandbox_landlock_process landlock_create_ruleset bytes_eq
  sandbox_landlock_process-filtered syscall h =
      rw
        (not_permitted syscall (bytes "landlock_create_ruleset")
          (mask_of handled_access_fs ∷ 8 ∷ 0 ∷ []) h refl)
        refl
