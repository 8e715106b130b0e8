-- ===== src/F5/Convergence.antt =====
-- provisioner/loadbalancer/f5ltm: the check of a policy agrees with the rules that the extension
-- writes.
use interlook.Prelude.{
  String, Bool, true, false, not, ◌&&◌, ◌||◌, ◌≡◌, refl, ◌≢◌, inl, inr, List, [], ◌∷◌, ◌++◌, ◌==◌,
  All, if◌then◌else◌, Bool-cases, arith, eq_iff, eq_refl, ==_ne,
}
use interlook.Comm.{Message, eq_strings}
use interlook.F5.{PolicyRule, PolicyRuleCondition, PolicyRuleAction, BigIp}
use interlook.F5.Helper.{add_partition_to_path}
use interlook.F5.Rules.{
  build_policy_rule_from_msg, condition_differs, action_differs, any_condition, any_action,
  rules_need_update,
}

eq_strings_refl : (ss : List String) → eq_strings ss ss ≡ true
unfolding eq_strings
eq_strings_refl [] = refl
eq_strings_refl (s ∷ ss) = rw (eq_refl s) (eq_strings_refl ss)

eq_strings_sound : (ss ts : List String) → eq_strings ss ts ≡ true → ss ≡ ts
unfolding eq_strings
eq_strings_sound [] [] h = refl
eq_strings_sound [] (t ∷ ts) h = absurd (cc)
eq_strings_sound (s ∷ ss) [] h = absurd (cc)
eq_strings_sound (s ∷ ss) (t ∷ ts) h =
    rw ((eq_iff s t).0 (ground arith), eq_strings_sound ss ts (ground arith)) refl

conditions-built :
    (f5 : BigIp) (msg : Message)
    → any_condition msg (build_policy_rule_from_msg f5 msg).conditions ≡ false
unfolding any_condition condition_differs build_policy_rule_from_msg
conditions-built f5 msg = rw (eq_strings_refl msg.service.dns_aliases) (never msg.service.tls)
  where
    never : (b : Bool) → (if (not b || b) && false then true else false) ≡ false
    never true = refl
    never false = refl

actions-built :
    (f5 : BigIp) (msg : Message)
    → any_action f5 msg (build_policy_rule_from_msg f5 msg).actions ≡ false
unfolding any_action action_differs build_policy_rule_from_msg
actions-built f5 msg = rw (eq_refl (add_partition_to_path f5 msg.service.name)) refl

name-built :
    (f5 : BigIp) (msg : Message) → (build_policy_rule_from_msg f5 msg).name ≡ msg.service.name
unfolding build_policy_rule_from_msg
name-built f5 msg = refl

-- A policy in which the rule that the extension builds is the only one of the service needs no
-- update, wherever the rule stands.
pub rules_need_update-built :
    (f5 : BigIp) (msg : Message) (before after : List PolicyRule) (exist : Bool)
    → All (λ r. r.name ≢ msg.service.name) before
    → All (λ r. r.name ≢ msg.service.name) after
    → rules_need_update f5 msg (before ++ build_policy_rule_from_msg f5 msg ∷ after) exist
      ≡ (false, true)
unfolding rules_need_update
rules_need_update-built f5 msg [] after exist b a =
    rw (name-built f5 msg, eq_refl msg.service.name, conditions-built f5 msg, actions-built f5 msg)
      (others after a)
  where
    others :
        (rules : List PolicyRule)
        → All (λ r. r.name ≢ msg.service.name) rules
        → rules_need_update f5 msg rules true ≡ (false, true)
    others [] q = refl
    others (r ∷ rules) (p, q) = rw (==_ne r.name msg.service.name p) (others rules q)
rules_need_update-built f5 msg (r ∷ before) after exist (p, b) a =
    rw (==_ne r.name msg.service.name p) (rules_need_update-built f5 msg before after exist b a)

-- A rule of the service that is up to date: its conditions on the host names have the names of the
-- service, and what it forwards goes to the pool of the service.
pub record IsCurrent (f5 : BigIp) (msg : Message) (r : PolicyRule) : Type 0 where
  pub names :
      All
        (λ c. (c.http_host || c.server_name) ≡ true → c.values ≡ msg.service.dns_aliases)
        r.conditions
  pub pools :
      All (λ a. a.forward ≡ true → a.pool ≡ add_partition_to_path f5 msg.service.name) r.actions

any_condition_sound :
    (msg : Message) (cs : List PolicyRuleCondition)
    → any_condition msg cs ≡ false
    → All (λ c. (c.http_host || c.server_name) ≡ true → c.values ≡ msg.service.dns_aliases) cs
unfolding any_condition condition_differs
any_condition_sound msg [] h = tt
any_condition_sound msg (c ∷ cs) h = (
  (λ on. ground (arith, eq_strings_sound c.values msg.service.dns_aliases)),
  any_condition_sound msg cs (ground arith),
)

any_action_sound :
    (f5 : BigIp) (msg : Message) (as₁ : List PolicyRuleAction)
    → any_action f5 msg as₁ ≡ false
    → All (λ a. a.forward ≡ true → a.pool ≡ add_partition_to_path f5 msg.service.name) as₁
unfolding any_action action_differs
any_action_sound f5 msg [] h = tt
any_action_sound f5 msg (a ∷ as₁) h = (
  (λ on. ground (arith, eq_iff a.pool (add_partition_to_path f5 msg.service.name))),
  any_action_sound f5 msg as₁ (ground arith),
)

-- Where no update of a policy is needed, each rule of the service in it is up to date: its
-- conditions on host names have the names of the service, and what it forwards goes to the pool
-- of the service.
pub rules_need_update_sound :
    (f5 : BigIp) (msg : Message) (rules : List PolicyRule) (exist found : Bool)
    → rules_need_update f5 msg rules exist ≡ (false, found)
    → All (λ r. r.name ≡ msg.service.name → IsCurrent f5 msg r) rules
unfolding rules_need_update
rules_need_update_sound f5 msg [] exist found h = tt
rules_need_update_sound f5 msg (r ∷ rules) exist found h =
    elim (Bool-cases (r.name == msg.service.name)) [
      | inr other ↦ (
        (λ e. absurd (ground (arith, eq_iff r.name msg.service.name))),
        rules_need_update_sound f5 msg rules exist found (rw other at h),
      )
      | inl own ↦ elim (Bool-cases (any_condition msg r.conditions)) [
        | inl bad ↦ let no = rw (own, bad) at h in absurd (cc)
        | inr good ↦ elim (Bool-cases (any_action f5 msg r.actions)) [
          | inl bad ↦ let no = rw (own, good, bad) at h in absurd (cc)
          | inr fine ↦ (
            (λ e. record {
              names = any_condition_sound msg r.conditions good;
              pools = any_action_sound f5 msg r.actions fine;
            }),
            rules_need_update_sound f5 msg rules true found (rw (own, good, fine) at h),
          )
        ]
      ]
    ]
