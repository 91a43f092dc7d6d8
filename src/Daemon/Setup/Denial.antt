-- ===== src/Daemon/Setup/Denial.antt =====
-- noports_daemon.cpp: the permit check of _continueNptRequest in either mode, and the text of a denial.
use noports.Prelude.{ℕ, Bool, true, false, List, [], ◌∷◌, ◌++◌, if◌then◌else◌, Text, codes, take}
use noports.Daemon.Notify.{in_policy_mode}
use noports.Daemon.Setup.{SessionConfig}
use noports.Permit.Rules.{PermitOpen, policy_permits, manager_permits}
use noports.Permit.Denial.{list_policy, list_manager, print_port}

-- sizeof(err_msg), less the zero.
abbrev pub message_room : ℕ
message_room = 255

module _ (config : SessionConfig) where
  unfoldable pub permits : Text → ℕ → List Text → Bool
  permits rhost rport rules =
      if in_policy_mode config.base.policy_atsign
      then policy_permits rhost rport rules
      else manager_permits rhost rport config.base.permitopen

  -- `po_list`
  unfoldable pub listed_rules : List Text → Text
  unfolding list_policy
  listed_rules [] = codes "(none)"
  listed_rules (r ∷ rules) = list_policy 0 [] (r ∷ rules)

  unfoldable pub listed_entries : List PermitOpen → Text
  unfolding list_manager
  listed_entries [] = codes "(none)"
  listed_entries (e ∷ es) = list_manager 0 0 [] (e ∷ es)

  unfoldable pub mode_name : Bool → Text
  mode_name true = codes "POLICY"
  mode_name false = codes "MANAGER"

  -- `err_msg`, cut to its buffer.
  unfoldable pub denial : Text → ℕ → List Text → Text
  unfolding listed_rules listed_entries mode_name print_port
  denial rhost rport rules =
      let policy = in_policy_mode config.base.policy_atsign in
      take message_room (
        codes "Connection to "
        ++ (rhost
            ++ (codes ":"
                ++ (print_port rport
                    ++ (codes " denied based on "
                        ++ (mode_name policy
                            ++ (codes " --permit-open ["
                                ++ ((if policy
                                      then listed_rules rules
                                      else listed_entries config.base.permitopen)
                                    ++ codes "]"))))))))
