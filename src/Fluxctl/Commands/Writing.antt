-- ===== src/Fluxctl/Commands/Writing.antt =====
-- About the rules that the commands write.
use ambergreen.Common.{
  ℕ, String, is_some, ◌≡◌, refl, Bool, true, false, ◌&&◌, Option, none, some, List, [], ◌∷◌, ◌==◌,
  string_eq, if◌then◌else◌, arith, inl, inr, Option-cases,
}
use ambergreen.GoMap
use ambergreen.GoMap.{Map}
use ambergreen.Store.Data.{ContainerRule}
use ambergreen.Store.InMemState.{InMem, StoreError, fire_service_change}
use ambergreen.Store.InMem.{
  Reply, map_at, check_registered_service, set_container_rule, remove_container_rule,
}
use ambergreen.Store.InMem.Calls.{IsAligned}
use ambergreen.Fluxctl.Selectors.{SelectorOpts, make_spec}
use ambergreen.Fluxctl.Commands.{
  CommandError, bad_arguments, no_service, empty_rule, Outcome, fail, written, rule_args, with_port,
  select_run, deselect_run,
}

-- The rule of a service under a name.
abbrev pub rule_at : InMem → String → String → Option ContainerRule
rule_at s name rule = GoMap.lookup rule (map_at name s.group_specs)

-- What the options of a select say.
abbrev pub rule_of : ℕ → Option ContainerRule → Option ContainerRule
rule_of port none = none
rule_of port (some spec) = some (with_port port spec)

-- An outcome writes one rule, and prints its name, or it is an error and changes nothing; `ready` says
-- whether what is to be written is there.
pub record IsWriting (args : List String) (ready : Bool) (given : Option ContainerRule) (s : InMem)
    (o : Outcome) : Type 0 where
  pub accepted :
      (name rule : String)
      → rule_args args ≡ some (name, rule)
      → GoMap.has name s.services ≡ true
      → s.injected_error ≡ none
      → ready ≡ true
      → o.error ≡ none
  pub failed : is_some o.error ≡ true → o.store ≡ s
  pub succeeded :
      o.error ≡ none
      → (name rule : String) × (rule_args args ≡ some (name, rule))
        × (GoMap.has name s.services ≡ true)
        × (s.injected_error ≡ none)
        × (ready ≡ true)
        × (o.printed ≡ rule ∷ [])
        × ((n r : String)
            → rule_at o.store n r ≡ (if (n == name) && (r == rule) then given else rule_at s n r))

rule_at-set_container_rule :
    (name rule n r : String) (spec : ContainerRule) (s : InMem)
    → GoMap.has name s.group_specs ≡ true
    → rule_at (set_container_rule name rule spec s).0 n r
      ≡ (if (n == name) && (r == rule) then some spec else rule_at s n r)
unfolding set_container_rule fire_service_change GoMap.has
rule_at-set_container_rule name rule n r spec s h = ground (
  arith,
  h,
  GoMap.lookup-modify name n (GoMap.insert rule spec) s.group_specs,
  GoMap.lookup-insert rule r spec (map_at n s.group_specs),
  string_eq.beq_iff n name,
  string_eq.beq_iff name n,
  string_eq.beq_iff r rule,
  string_eq.beq_iff rule r,
)

rule_at-remove_container_rule :
    (name rule n r : String) (s : InMem)
    → GoMap.has name s.group_specs ≡ true
    → rule_at (remove_container_rule name rule s).0 n r
      ≡ (if (n == name) && (r == rule) then none else rule_at s n r)
unfolding remove_container_rule fire_service_change GoMap.has
rule_at-remove_container_rule name rule n r s h = ground (
  arith,
  h,
  GoMap.lookup-modify name n (GoMap.delete rule) s.group_specs,
  GoMap.lookup-delete rule r (map_at n s.group_specs),
  string_eq.beq_iff n name,
  string_eq.beq_iff name n,
  string_eq.beq_iff r rule,
  string_eq.beq_iff rule r,
)

-- A write that was checked before, in a store whose maps agree, has a reply without an error.
record IsReply (name rule : String) (given : Option ContainerRule) (s : InMem) (reply : Reply)
    : Type 0 where
  fine : reply.1 ≡ none
  wrote :
      (n r : String)
      → rule_at reply.0 n r ≡ (if (n == name) && (r == rule) then given else rule_at s n r)

some-none : (err : StoreError) → some err ≡ none → ⊥
some-none err e = cc

module _ (s : InMem) (aligned : IsAligned s) where
  has_rules :
      (name : String) → check_registered_service name s ≡ none → GoMap.has name s.group_specs ≡ true
  unfolding check_registered_service
  has_rules name fine = ground (arith, fine, (aligned name).rules)

  set_container_rule-IsReply :
      (name rule : String) (spec : ContainerRule)
      → check_registered_service name s ≡ none
      → IsReply name rule (some spec) s (set_container_rule name rule spec s)
  unfolding check_registered_service set_container_rule
  set_container_rule-IsReply name rule spec fine = record {
    fine = ground (arith, fine, has_rules name fine);
    wrote = λ n r. rule_at-set_container_rule name rule n r spec s (has_rules name fine);
  }

  remove_container_rule-IsReply :
      (name rule : String)
      → check_registered_service name s ≡ none
      → IsReply name rule none s (remove_container_rule name rule s)
  unfolding check_registered_service remove_container_rule
  remove_container_rule-IsReply name rule fine = record {
    fine = ground (arith, fine, has_rules name fine);
    wrote = λ n r. rule_at-remove_container_rule name rule n r s (has_rules name fine);
  }

  registered :
      (name : String) → check_registered_service name s ≡ none → GoMap.has name s.services ≡ true
  unfolding check_registered_service
  registered name fine = ground (arith, fine)

  not_injected : (name : String) → check_registered_service name s ≡ none → s.injected_error ≡ none
  unfolding check_registered_service
  not_injected name fine = ground (arith, fine)

  written-IsWriting :
      (args : List String) (name rule : String) (given : Option ContainerRule) (reply : Reply)
      → rule_args args ≡ some (name, rule)
      → check_registered_service name s ≡ none
      → IsReply name rule given s reply
      → IsWriting args true given s (written rule reply)
  written-IsWriting args name rule given (t, none) e fine h = record {
    accepted = λ n r e₁ has_name no_error ready. refl;
    failed = λ p. cc;
    succeeded =
        λ p. (name, rule, e, registered name fine, not_injected name fine, refl, refl, h.wrote);
  }
  written-IsWriting args name rule given (t, some err) e fine h = absurd (some-none err h.fine)

  fail-IsWriting :
      (args : List String) (ready : Bool) (given : Option ContainerRule) (err : CommandError)
      → ((name rule : String)
          → rule_args args ≡ some (name, rule)
          → GoMap.has name s.services ≡ true
          → s.injected_error ≡ none
          → ready ≡ true
          → ⊥)
      → IsWriting args ready given s (fail s err)
  fail-IsWriting args ready given err never = record {
    accepted = λ n r e has_name no_error is_ready. absurd (never n r e has_name no_error is_ready);
    failed = λ p. refl;
    succeeded = λ p. cc;
  }

  unregistered :
      (args : List String) (name rule : String) (err : StoreError)
      → rule_args args ≡ some (name, rule)
      → check_registered_service name s ≡ some err
      → (n r : String) → rule_args args ≡ some (n, r)
      → GoMap.has n s.services ≡ true
      → s.injected_error ≡ none
      → ⊥
  unfolding check_registered_service
  unregistered args name rule err e e₁ n r e₂ has_n no_error =
      ground (arith, e, e₁, e₂, has_n, no_error)

  deselect_run-IsWriting : (args : List String) → IsWriting args true none s (deselect_run args s)
  unfolding deselect_run
  deselect_run-IsWriting args = elim (Option-cases (rule_args args)) [
    | inl e ↦
        rw (e, deselect_run) (fail-IsWriting args true none bad_arguments (λ n r e₁ h₁ h₂ h₃. cc))
    | inr ((name, rule), e) ↦ elim (Option-cases (check_registered_service name s)) [
      | inl fine ↦
          rw (e, fine, deselect_run)
            (written-IsWriting args name rule none (remove_container_rule name rule s) e fine
              (remove_container_rule-IsReply name rule fine))
      | inr (err, e₁) ↦
          rw (e, e₁, deselect_run)
            (fail-IsWriting args true none (no_service err)
              (λ n r e₂ h₁ h₂ h₃. unregistered args name rule err e e₁ n r e₂ h₁ h₂))
    ]
  ]

  -- In a store whose maps agree on the services: select succeeds iff it is given a service that is there, and
  -- perhaps the name of a rule, with options that select something, and no error is injected. Then it
  -- sets this one rule, from the options, and prints its name; else it changes nothing.
  pub select_run-IsWriting :
      (opts : SelectorOpts) (port : ℕ) (args : List String)
      → IsWriting args
          (is_some (make_spec opts))
          (rule_of port (make_spec opts))
          s
          (select_run opts port args s)
  unfolding select_run
  select_run-IsWriting opts port args = elim (Option-cases (rule_args args)) [
    | inl e ↦
        rw (e, select_run)
          (fail-IsWriting args (is_some (make_spec opts)) _ bad_arguments (λ n r e₁ h₁ h₂ h₃. cc))
    | inr ((name, rule), e) ↦ elim (Option-cases (check_registered_service name s)) [
      | inr (err, e₁) ↦
          rw (e, e₁, select_run)
            (fail-IsWriting args (is_some (make_spec opts)) _ (no_service err)
              (λ n r e₂ h₁ h₂ h₃. unregistered args name rule err e e₁ n r e₂ h₁ h₂))
      | inl fine ↦ elim (Option-cases (make_spec opts)) [
        | inl e₂ ↦
            rw (e, fine, e₂, select_run)
              (fail-IsWriting args false none empty_rule (λ n r e₃ h₁ h₂ h₃. cc))
        | inr (spec, e₂) ↦
            rw (e, fine, e₂, select_run)
              (written-IsWriting args name rule (some (with_port port spec))
                (set_container_rule name rule (with_port port spec) s) e fine
                (set_container_rule-IsReply name rule (with_port port spec) fine))
      ]
    ]
  ]
