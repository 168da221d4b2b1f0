-- ===== src/Multiproc/Sandbox/Runs.antt =====
-- The theorem about source/multiproc/sandbox.c at a concrete input.
use torr.Prelude.{
  ℕ, Bool, true, false, List, [], ◌∷◌, none, some, ◌≡◌, refl, sym, ap, ◌||◌, bytes, bytes_eq,
  Option,
}
use torr.Multiproc.Sandbox.{
  add_rules, custom_seccomp_filter_mmap, load_filter, Rule, Arguments, is_for, Seccomp,
  mprotect_rule, sandbox_landlock_process, landlock_create_ruleset, landlock_restrict_self,
  returned, killed, ended, seccomp_filter_whitelist, sandbox_seccomp_filter_process,
}
use torr.Multiproc.Filter.{
  sandbox_seccomp_filter_process-allows, filtered, sandbox_landlock_process-filtered,
}

-- A context that is the list of its rules, of which there is room for so many, newest first.
abbrev lets_pass : List Rule → List ℕ → Arguments → Bool
lets_pass [] s arguments = false
lets_pass (r ∷ rules) s arguments = lets_pass rules s arguments || is_for r s arguments

abbrev same_rules : Option (List Rule) → List Rule
same_rules none = []
same_rules (some rules) = rules

abbrev listed : Seccomp (List Rule)
listed = record {
  init = [];
  rule_add = λ (rules : List Rule) (r : Rule). some (r ∷ rules);
  load = λ (rules : List Rule). true;
  allows = lets_pass;
  init_allows_nothing = λ (s : List ℕ) (arguments : Arguments). refl;
  rule_add_allows = λ (c c' : List Rule) (r : Rule) (s : List ℕ) (arguments : Arguments) e.
      ap (λ (o : Option (List Rule)). lets_pass (same_rules o) s arguments) (sym e);
}

abbrev added : List (List ℕ) → List Rule → List Rule
added [] rules = rules
added (s ∷ rest) rules = added rest (record { system_call = s; condition = none } ∷ rules)

abbrev all_rules : List Rule
all_rules = mprotect_rule ∷ mprotect_rule ∷ added seccomp_filter_whitelist []

filtered_rules : sandbox_seccomp_filter_process listed ≡ some all_rules
unfolding sandbox_seccomp_filter_process add_rules custom_seccomp_filter_mmap load_filter
filtered_rules = refl

-- To make memory executable is not permitted.
sandbox_seccomp_filter_process-allows_example :
    lets_pass all_rules (bytes "mprotect") (λ (position : ℕ). 7) ≡ false
unfolding bytes_eq
sandbox_seccomp_filter_process-allows_example =
    sandbox_seccomp_filter_process-allows listed (bytes "mprotect") (λ (position : ℕ). 7) all_rules
      filtered_rules

sandbox_landlock_process-filtered_example :
    sandbox_landlock_process
      (filtered listed all_rules (λ (name : List ℕ) (arguments : List ℕ). returned (some 0)))
    ≡ killed
sandbox_landlock_process-filtered_example =
    sandbox_landlock_process-filtered listed all_rules
      (λ (name : List ℕ) (arguments : List ℕ). returned (some 0)) filtered_rules

-- Without the filter the same answers make it succeed.
unfiltered :
    sandbox_landlock_process (λ (name : List ℕ) (arguments : List ℕ). returned (some 0))
    ≡ ended true
unfolding sandbox_landlock_process landlock_create_ruleset landlock_restrict_self
unfiltered = refl
