-- ===== src/Fluxctl/Selectors.antt =====
-- fluxctl/types.go, fluxctl/query.go: the selectors and rules that the flags of a command give.
use Prim.Native.String.{◌++◌ as append}
use ambergreen.Common.{String, Option, none, some, List, [], ◌∷◌, ◌==◌, string_eq, if◌then◌else◌}
use ambergreen.GoMap
use ambergreen.GoStrings.{split, split_2, trim_left}
use ambergreen.Store.Data.{Selector, empty, ContainerRule, host_label, state_label, rule_label}

-- The struct selector.
pub record SelectorOpts : Type 0 where
  pub env : String
  pub labels : String
  pub image : String
  pub tag : String

-- The switch on the length of the pair.
unfoldable pub add_pair : String → List String → Selector → Selector
add_pair key_prefix [] sel = sel
add_pair key_prefix (key ∷ []) sel = GoMap.insert (append key_prefix key) key sel
add_pair key_prefix (key ∷ value ∷ more) sel = GoMap.insert (append key_prefix key) value sel

unfoldable pub add_pairs : String → List String → Selector → Selector
unfolding add_pair
add_pairs key_prefix [] sel = sel
add_pairs key_prefix (kv ∷ kvs) sel =
    add_pairs key_prefix kvs
      (if kv == "" then sel else add_pair key_prefix (split_2 b'=' (trim_left b' ' kv)) sel)

unfoldable pub selectorise : String → String → Selector → Selector
unfolding add_pairs
selectorise comma_separated_labels key_prefix into_sel =
    add_pairs key_prefix (split b',' comma_separated_labels) into_sel

-- `if value != "" { sel[key] = value }`
abbrev pub set_label : String → String → Selector → Selector
set_label key value sel = if value == "" then sel else GoMap.insert key value sel

unfoldable pub make_selector : SelectorOpts → Selector
unfolding selectorise
make_selector opts =
    set_label "tag" opts.tag
      (set_label "image" opts.image (selectorise opts.env "env." (selectorise opts.labels "" [])))

-- makeSpec, whose error is always nil.
unfoldable pub make_spec : SelectorOpts → Option ContainerRule
unfolding make_selector
make_spec opts =
    let sel = make_selector opts in
    if empty sel then none else some (record { selector = sel; instance_port = 0 })

-- The fields of queryOpts that it selects by.
pub record QueryOpts : Type 0 where
  pub selector : SelectorOpts
  pub host : String
  pub state : String
  pub rule : String
  pub service : String

-- The selector of a query.
unfoldable pub query_selector : QueryOpts → Selector
unfolding make_selector
query_selector opts = set_label rule_label opts.rule (
    set_label state_label opts.state (set_label host_label opts.host (make_selector opts.selector)))
