-- ===== src/Multiproc/Sandbox.antt =====
-- source/multiproc/sandbox.c: the filter of system calls and the rules of the file system under which
-- a task runs. The libraries and the kernel are parameters, with what they document.
mod Runs
use torr.Prelude.{
  ℕ, ◌==◌, Bool, true, false, not, List, [], ◌∷◌, Option, none, some, ◌≡◌, if◌then◌else◌, bytes,
  bytes_eq, ◌&&◌, ◌||◌, ◌+◌, ◌-◌, ◌^◌, ◌++◌, ℤ, pos, negsuc,
}
use torr.Bencode.Number.{decimal}

-- A rule of the filter, which allows a system call: where there is a condition, only if an argument
-- has a value (`SCMP_CMP_EQ`).
pub record Rule : Type 0 where
  pub system_call : List ℕ
  pub condition : Option (ℕ × ℕ)

-- The arguments of a system call, by their position.
abbrev pub Arguments : Type 0
Arguments = ℕ → ℕ

abbrev pub meets : Option (ℕ × ℕ) → Arguments → Bool
meets none arguments = true
meets (some (position, v)) arguments = arguments position == v

-- Whether a rule is about this call.
abbrev pub is_for : Rule → List ℕ → Arguments → Bool
is_for r s arguments = bytes_eq r.system_call s && meets r.condition arguments

-- The result of a system call that is to be 0.
abbrev pub is_zero : Option ℕ → Bool
is_zero none = false
is_zero (some n) = n == 0

-- libseccomp: a context, what a load of it lets pass, and that a rule that is added adds what it is
-- about. The context of `seccomp_init` with an action that kills lets nothing pass.
pub record Seccomp (C : Type 0) : Type 0 where
  pub init : C
  pub rule_add : C → Rule → Option C
  pub load : C → Bool
  pub allows : C → List ℕ → Arguments → Bool
  pub init_allows_nothing : (s : List ℕ) (arguments : Arguments) → allows init s arguments ≡ false
  pub rule_add_allows :
      (c c' : C) (r : Rule) (s : List ℕ) (arguments : Arguments)
      → rule_add c r ≡ some c'
      → allows c' s arguments ≡ (allows c s arguments || is_for r s arguments)

-- `seccomp_filter_whitelist`
abbrev pub seccomp_filter_whitelist : List (List ℕ)
seccomp_filter_whitelist =
    bytes "exit_group"
    ∷ bytes "exit"
    ∷ bytes "read"
    ∷ bytes "write"
    ∷ bytes "close"
    ∷ bytes "socket"
    ∷ bytes "connect"
    ∷ bytes "recvfrom"
    ∷ bytes "sendto"
    ∷ bytes "sched_yield"
    ∷ bytes "msync"
    ∷ bytes "mmap"
    ∷ bytes "munmap"
    ∷ bytes "brk"
    ∷ bytes "futex_wait"
    ∷ bytes "futex_wake"
    ∷ bytes "futex_waitv"
    ∷ bytes "futex_requeue"
    ∷ bytes "futex"
    ∷ []

-- `PROT_READ | PROT_WRITE`, and the rule for `mprotect`, which is added twice.
abbrev pub mprotect_rule : Rule
mprotect_rule = record { system_call = bytes "mprotect"; condition = some (2, 3) }

module _ {C : Type 0} (seccomp : Seccomp C) where
  -- The loop over the whitelist, which is left where a rule cannot be added.
  unfoldable pub add_rules : List (List ℕ) → C → Option C
  add_rules [] c = some c
  add_rules (s ∷ rest) c =
      elim (seccomp.rule_add c (record { system_call = s; condition = none })) [
        | none ↦ none
        | some c' ↦ add_rules rest c'
      ]

  -- `custom_seccomp_filter_mmap` in the loop over the functions, which does not look at its result.
  unfoldable pub custom_seccomp_filter_mmap : C → C
  custom_seccomp_filter_mmap c = elim (seccomp.rule_add c mprotect_rule) [ none ↦ c | some c' ↦ c' ]

  -- `sandbox_seccomp_filter_process` behind its loops.
  unfoldable pub load_filter : C → Option C
  load_filter c = elim (seccomp.rule_add c mprotect_rule) [
    | none ↦ none
    | some last ↦ if seccomp.load last then some last else none
  ]

  -- `sandbox_seccomp_filter_process`: the filter that is loaded where it returns true.
  unfoldable pub sandbox_seccomp_filter_process : Option C
  sandbox_seccomp_filter_process = elim (add_rules seccomp_filter_whitelist seccomp.init) [
    | none ↦ none
    | some c ↦ load_filter (custom_seccomp_filter_mmap c)
  ]

-- `landlock_rules_blacklist`, the accesses that are denied, by their bits, and their mask.
abbrev pub handled_access_fs : List ℕ
handled_access_fs = 0 ∷ 1 ∷ 2 ∷ 3 ∷ 4 ∷ 5 ∷ 6 ∷ 7 ∷ 8 ∷ 12 ∷ 11 ∷ 14 ∷ 13 ∷ []

abbrev pub mask_of : List ℕ → ℕ
mask_of [] = 0
mask_of (bit ∷ rest) = 2 ^ bit + mask_of rest

-- What a system call does: it returns, where -1 is `none`, or the process is killed at it.
pub data Answer : Type 0 where
  returned : Option ℕ → Answer
  dead : Answer

-- `syscall`, from the name and the arguments of a system call.
abbrev pub SystemCalls : Type 0
SystemCalls = List ℕ → List ℕ → Answer

-- What a call of a function of the sandbox ends with: its result, or that the process is killed.
pub data Ending : Type 0 where
  ended : Bool → Ending
  killed : Ending

abbrev pub then_call : Answer → (Option ℕ → Ending) → Ending
then_call (returned r) f = f r
then_call dead f = killed

module _ (syscall : SystemCalls) where
  -- `landlock_create_ruleset`, of which the attributes are their only field.
  unfoldable pub landlock_create_ruleset : ℕ → ℕ → ℕ → Answer
  landlock_create_ruleset attributes size flags =
      syscall (bytes "landlock_create_ruleset") (attributes ∷ size ∷ flags ∷ [])

  -- `landlock_restrict_self`; a file descriptor of -1 is that of 32 bits.
  unfoldable pub landlock_restrict_self : Option ℕ → ℕ → Answer
  landlock_restrict_self ruleset_fd flags =
      let fd : ℕ = elim ruleset_fd [ none ↦ 2 ^ 32 - 1 | some n ↦ n ] in
      syscall (bytes "landlock_restrict_self") (fd ∷ flags ∷ [])

  -- `sandbox_landlock_process`, where `prctl` is another system call: the file descriptor of the
  -- rules is not looked at before. `PR_SET_NO_NEW_PRIVS` is 38.
  unfoldable pub sandbox_landlock_process : Ending
  sandbox_landlock_process =
      then_call (landlock_create_ruleset (mask_of handled_access_fs) 8 0) (λ ruleset_fd.
        then_call (syscall (bytes "prctl") (38 ∷ 1 ∷ 0 ∷ 0 ∷ 0 ∷ [])) (λ failed.
          if not (is_zero failed)
          then ended false
          else then_call (landlock_restrict_self ruleset_fd 0)
              (λ restricted. ended (is_zero restricted))))

-- `multiproc_task::sandbox`, where false is the failed assert.
unfoldable pub sandbox : {C : Type 0} → Bool → Option C → Bool
sandbox landlocked filtered =
    if not landlocked then false else elim filtered [ none ↦ false | some c ↦ true ]

-- `seccomp_action`, where `DEBUG_SANDBOX` is set and where it is not, as in the source.
pub data SeccompAction : Type 0 where
  trap kill : SeccompAction

abbrev pub seccomp_action : Bool → SeccompAction
seccomp_action true = trap
seccomp_action false = kill

-- `siginfo_t`, as far as the handler reads it; `SI_USER` is 0 and `SI_QUEUE` -1.
pub record SignalInfo : Type 0 where
  pub signo : ℕ
  pub value : ℕ
  pub code : ℤ
  pub pid : ℕ
  pub uid : ℕ

abbrev pub is_sent : ℤ → Bool
is_sent (pos n) = n == 0
is_sent (negsuc n) = n == 0

-- `sigsys_handler`: its counter, and the lines that it prints, given `strsignal`.
unfoldable pub sigsys_handler : (ℕ → List ℕ) → ℕ → SignalInfo → ℕ × List (List ℕ)
sigsys_handler strsignal count info =
    let always =
      (bytes "#" ++ decimal (count + 1))
      ∷ (bytes "\tsi_signo: "
          ++ decimal info.signo
          ++ bytes " ("
          ++ strsignal info.signo
          ++ bytes ")")
      ∷ (bytes "\tsi_value.: " ++ decimal info.value)
      ∷ [] in
    let sender =
      (bytes "\tsi_pid..: " ++ decimal info.pid)
      ∷ (bytes "\tsi_uid..: " ++ decimal info.uid)
      ∷ [] in
    (count + 1, if is_sent info.code then always ++ sender else always)

-- `struct sigaction`, and `sandbox_install_sigsys_handler`, given whether `sigaction` succeeds for a
-- signal; `SIGSYS` is 31 and `SA_SIGINFO` 4. The second mask that it fills is not used.
pub record SignalAction : Type 0 where
  pub mask : List ℕ
  pub flags : ℕ
  pub handler : ℕ → SignalInfo → ℕ × List (List ℕ)

unfoldable pub sandbox_install_sigsys_handler : (ℕ → List ℕ) → (ℕ → SignalAction → Bool) → Bool
sandbox_install_sigsys_handler strsignal sigaction =
    sigaction 31 (record { mask = []; flags = 4; handler = sigsys_handler strsignal })

-- What the filter is to let pass.
abbrev pub is_member : List (List ℕ) → List ℕ → Bool
is_member [] s = false
is_member (name ∷ rest) s = bytes_eq name s || is_member rest s

abbrev pub is_permitted : List ℕ → Arguments → Bool
is_permitted s arguments =
    is_member seccomp_filter_whitelist s || (bytes_eq (bytes "mprotect") s && (arguments 2 == 3))
