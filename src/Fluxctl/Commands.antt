-- ===== src/Fluxctl/Commands.antt =====
-- fluxctl/select.go, deselect.go, service.go, rm.go: the commands that write, on the in-memory store.
-- An error is told by what it is about. What a command prints is a list of lines.
pub mod Writing
mod Tests
use ambergreen.Common.{
  ℕ, String, Bool, true, false, Option, none, some, List, [], ◌∷◌, ◌==◌, string_eq, nat_eq,
  if◌then◌else◌,
}
use ambergreen.Net.{IpPort, ip_of}
use ambergreen.Net.Text.{Network, parse_ip_port}
use ambergreen.Store.Data.{ContainerRule, Service}
use ambergreen.Store.InMemState.{StoreError, InMem}
use ambergreen.Store.InMem
use ambergreen.Store.InMem.{Reply}
use ambergreen.Fluxctl.Selectors.{SelectorOpts, make_spec}

pub data CommandError : Type 0 where
  bad_arguments : CommandError
  no_service : StoreError → CommandError
  empty_rule : CommandError
  not_written : StoreError → CommandError
  bad_address : String → CommandError

pub record Outcome : Type 0 where
  pub store : InMem
  pub error : Option CommandError
  pub printed : List String

abbrev pub fail : InMem → CommandError → Outcome
fail s err = record { store = s; error = some err; printed = [] }

-- The end of a command that has written and then prints a line.
abbrev pub written : String → Reply → Outcome
written line (s, none) = record { store = s; error = none; printed = line ∷ [] }
written line (s, some err) = fail s (not_written err)

abbrev pub default_rule : String
default_rule = "default"

-- The arguments `<service> [<rule name>]`.
unfoldable pub rule_args : List String → Option (String × String)
rule_args (service_name ∷ []) = some (service_name, default_rule)
rule_args (service_name ∷ rule_name ∷ []) = some (service_name, rule_name)
rule_args args = none

abbrev pub with_port : ℕ → ContainerRule → ContainerRule
with_port port spec = if nat_eq port 0 then spec else record spec { instance_port = port }

-- selectOpts.run
unfoldable pub select_run : SelectorOpts → ℕ → List String → InMem → Outcome
unfolding rule_args
select_run opts instance_port args s = elim (rule_args args) [
  | none ↦ fail s bad_arguments
  | some (service_name, rule_name) ↦ elim (InMem.check_registered_service service_name s) [
    | some err ↦ fail s (no_service err)
    | none ↦ elim (make_spec opts) [
      | none ↦ fail s empty_rule
      | some spec ↦
          written rule_name
            (InMem.set_container_rule service_name rule_name (with_port instance_port spec) s)
    ]
  ]
]

-- deselectOpts.run
unfoldable pub deselect_run : List String → InMem → Outcome
unfolding rule_args
deselect_run args s = elim (rule_args args) [
  | none ↦ fail s bad_arguments
  | some (service_name, rule_name) ↦ elim (InMem.check_registered_service service_name s) [
    | some err ↦ fail s (no_service err)
    | none ↦ written rule_name (InMem.remove_container_rule service_name rule_name s)
  ]
]

-- rmOpts.run, which prints nothing.
unfoldable pub rm_run : List String → InMem → Outcome
rm_run (arg ∷ []) s =
    let (t, err) =
      if arg == "--all" then InMem.remove_all_services s else InMem.remove_service arg s in
    elim err [
      | none ↦ record { store = t; error = none; printed = [] }
      | some e ↦ fail t (not_written e)
    ]
rm_run args s = fail s bad_arguments

module _ (net : Network) where
  -- parseAddress: the Address of the service, and `none` for an error.
  unfoldable pub parse_address : String → Option (Option IpPort)
  unfolding ip_of
  parse_address address = if address == "" then some none else elim (parse_ip_port net address) [
    | none ↦ none
    | some addr ↦ elim (ip_of addr) [ none ↦ none | some ip ↦ some (some addr) ]
  ]

  -- The service that addOpts.run makes of its options.
  unfoldable pub make_service : Option IpPort → String → ℕ → Service
  make_service address protocol instance_port = record {
    address = address;
    instance_port =
        if nat_eq instance_port 0
        then elim address [ none ↦ instance_port | some a ↦ a.port ]
        else instance_port;
    protocol = protocol;
  }

  -- The last part of addOpts.run: the rule, if there is one.
  abbrev add_rule : String → Option ContainerRule → InMem → Outcome
  add_rule service_name none s = written service_name (s, none)
  add_rule service_name (some spec) s =
      written service_name (InMem.set_container_rule service_name default_rule spec s)

  -- addOpts.run
  unfoldable pub service_run : SelectorOpts → String → String → ℕ → List String → InMem → Outcome
  unfolding parse_address make_service
  service_run opts address protocol instance_port (service_name ∷ []) s =
      elim (parse_address address) [
        | none ↦ fail s (bad_address address)
        | some addr ↦
            let (t, err) =
              InMem.add_service service_name (make_service addr protocol instance_port) s in
            elim err [
              | some e ↦ fail t (not_written e)
              | none ↦ add_rule service_name (make_spec opts) t
            ]
      ]
  service_run opts address protocol instance_port args s = fail s bad_arguments
