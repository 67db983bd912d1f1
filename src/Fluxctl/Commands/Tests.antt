-- ===== src/Fluxctl/Commands/Tests.antt =====
-- A run of the commands on a store with one service.
use ambergreen.Common.{◌≡◌, refl, none, [], ◌∷◌, string_eq, is_some, arith}
use ambergreen.GoMap
use ambergreen.GoMap.{Map}
use ambergreen.GoStrings.{split, split_2, trim_left}
use ambergreen.Store.Data.{Service, empty}
use ambergreen.Store.InMemState.{InMem, new_in_mem}
use ambergreen.Store.InMem
use ambergreen.Store.InMem.Calls.{IsAligned}
use ambergreen.Fluxctl.Selectors.{
  SelectorOpts, make_selector, make_spec, selectorise, add_pairs, add_pair,
}
use ambergreen.Fluxctl.Commands.{rule_args, select_run}
use ambergreen.Fluxctl.Commands.Writing.{IsWriting, rule_of, select_run-IsWriting}

abbrev web : Service
web = record { address = none; instance_port = 80; protocol = "http" }

abbrev one_service : InMem
one_service = record new_in_mem {
  services = ("web", web) ∷ [];
  group_specs = ("web", []) ∷ [];
  instances = ("web", []) ∷ [];
  ingress_instances = ("web", []) ∷ [];
}

abbrev labels_only : SelectorOpts
labels_only = record { env = ""; labels = ",,foop=barp, foo= bar "; image = ""; tag = "" }

make_selector_labels : make_selector labels_only ≡ ("foop", "barp") ∷ ("foo", " bar ") ∷ []
unfolding make_selector selectorise add_pairs add_pair split split_2 trim_left GoMap.insert
make_selector_labels = refl

abbrev image_overrides : SelectorOpts
image_overrides = record {
  env = "SERVICE=pages=>borp";
  labels = "image=bar";
  image = "foo";
  tag = "";
}

make_selector_image :
    make_selector image_overrides ≡ ("image", "foo") ∷ ("env.SERVICE", "pages=>borp") ∷ []
unfolding make_selector selectorise add_pairs add_pair split split_2 trim_left GoMap.insert
make_selector_image = refl

one_service-IsAligned : IsAligned one_service
unfolding GoMap.has GoMap.lookup
one_service-IsAligned name = record {
  rules = ground arith;
  instances = ground arith;
  ingress_instances = ground arith;
}

select_run-IsWriting_example :
    IsWriting
      ("web" ∷ [])
      (is_some (make_spec labels_only))
      (rule_of 8080 (make_spec labels_only))
      one_service
      (select_run labels_only 8080 ("web" ∷ []) one_service)
select_run-IsWriting_example =
    select_run-IsWriting one_service one_service-IsAligned labels_only 8080 ("web" ∷ [])

select_run_prints : (select_run labels_only 8080 ("web" ∷ []) one_service).printed ≡ "default" ∷ []
unfolding select_run rule_args make_spec make_selector selectorise add_pairs add_pair split split_2
    trim_left GoMap.insert InMem.check_registered_service InMem.set_container_rule GoMap.has
    GoMap.lookup empty
select_run_prints = refl
