-- ===== src/Balancer/IpTables.antt =====
-- balancer/iptables.go: the chain of the balancer and its hooks. The iptables command is a
-- parameter: what it answers to a list of arguments, and the state that it leaves behind. The texts
-- of errors are left out.
use ambergreen.Common.{
  ℕ, zero, suc, ◌<◌, String, ◌≡◌, refl, Bool, true, false, Option, none, some, List, [], ◌∷◌, ◌++◌,
  is_some, arith,
}

-- The arguments of a call, which may be grouped; a text stands for what fmt.Sprint prints.
mutual
  pub data Arg : Type 0 where
    text : String → Arg
    group : Args → Arg

  pub data Args : Type 0 where
    nil : Args
    cons : Arg → Args → Args

mutual
  flatten_arg : Arg → List String → List String
  flatten_arg (text s) onto = onto ++ s ∷ []
  flatten_arg (group args) onto = flatten args onto

  flatten : Args → List String → List String
  flatten nil onto = onto
  flatten (cons arg args) onto = flatten args (flatten_arg arg onto)

-- A nil error, the command's own failure (ipTablesError), or another error.
pub data Outcome : Type 0 where
  succeeded : Outcome
  command_failed : Outcome
  other_error : Outcome

abbrev line : List String → Args → Args
line [] rest = rest
line (s ∷ texts) rest = cons (text s) (line texts rest)

-- `if err != nil { return err }` between two steps; `none` is a loop that has run out of fuel.
abbrev pub and_then :
    {W : Type 0} → Option (W × Outcome) → (W → Option (W × Outcome)) → Option (W × Outcome)
and_then none next = none
and_then (some (w, succeeded)) next = next w
and_then (some (w, command_failed)) next = some (w, command_failed)
and_then (some (w, other_error)) next = some (w, other_error)

pub record IpTables (W : Type 0) : Type 0 where
  pub nat_chain_setup : Bool
  pub filter_chain_setup : Bool
  pub system : W

module _ {W : Type 0} (cmd : List String → W → W × Outcome) (chain bridge : String) where
  unfoldable pub do_ip_tables : Args → W → W × Outcome
  unfolding flatten
  do_ip_tables args w = cmd (flatten args []) w

  abbrev chain_rule : Args
  chain_rule = line ("-j" ∷ chain ∷ []) nil

  abbrev old_chain_rule : Args
  old_chain_rule = line ("-i" ∷ bridge ∷ "-j" ∷ chain ∷ []) nil

  -- The arguments with which deleteChainRule calls the command.
  abbrev pub delete_args : String → String → Args → Args
  delete_args table hook_chain rule =
      line ("-t" ∷ table ∷ "-D" ∷ hook_chain ∷ []) (cons (group rule) nil)

  -- The loop of deleteChainRule, on fuel: it ends when the command fails.
  unfoldable pub delete_chain_rule : ℕ → String → String → Args → W → Option (W × Outcome)
  delete_chain_rule zero table hook_chain rule w = none
  delete_chain_rule (suc fuel) table hook_chain rule w =
      let (w', o) = do_ip_tables (delete_args table hook_chain rule) w in
      elim o [
        | succeeded ↦ delete_chain_rule fuel table hook_chain rule w'
        | command_failed ↦ some (w', succeeded)
        | other_error ↦ some (w', other_error)
      ]

  unfoldable pub delete_hooks : ℕ → String → List String → W → Option (W × Outcome)
  unfolding delete_chain_rule
  delete_hooks fuel table [] w = some (w, succeeded)
  delete_hooks fuel table (hook_chain ∷ hooks) w =
      let rest = delete_hooks fuel table hooks in
      and_then
        (and_then (delete_chain_rule fuel table hook_chain chain_rule w)
          (delete_chain_rule fuel table hook_chain old_chain_rule))
        rest

  -- An error of another kind from the first command is not returned.
  unfoldable pub delete_chain : ℕ → String → List String → W → Option (W × Outcome)
  unfolding delete_hooks do_ip_tables
  delete_chain fuel table hooks w =
      let (w', o) = do_ip_tables (line ("-t" ∷ table ∷ "-F" ∷ chain ∷ []) nil) w in
      let removed =
        and_then (delete_hooks fuel table hooks w')
          (λ u. some (do_ip_tables (line ("-t" ∷ table ∷ "-X" ∷ chain ∷ []) nil) u)) in
      elim o [ succeeded ↦ removed | command_failed ↦ some (w', succeeded) | other_error ↦ removed ]

  unfoldable pub insert_hooks : String → List String → W → Option (W × Outcome)
  unfolding do_ip_tables
  insert_hooks table [] w = some (w, succeeded)
  insert_hooks table (hook_chain ∷ hooks) w =
      and_then
        (some (
          do_ip_tables (line ("-t" ∷ table ∷ "-I" ∷ hook_chain ∷ []) (cons (group chain_rule) nil))
            w))
        (insert_hooks table hooks)

  unfoldable pub setup_chain : ℕ → String → List String → W → Option (W × Outcome)
  unfolding delete_chain insert_hooks do_ip_tables
  setup_chain fuel table hooks w = and_then (delete_chain fuel table hooks w) λ u.
      and_then (some (do_ip_tables (line ("-t" ∷ table ∷ "-N" ∷ chain ∷ []) nil) u))
        (insert_hooks table hooks)

  -- What start has done when setupChain of the first table, and then of the second, has ended.
  abbrev pub Started : Type 0
  Started = Option (IpTables W × Outcome)

  started_filter : IpTables W → Option (W × Outcome) → Started
  started_filter ipt none = none
  started_filter ipt (some (w, succeeded)) =
      some (record ipt { filter_chain_setup = true; system = w }, succeeded)
  started_filter ipt (some (w, o)) = some (record ipt { system = w }, o)

  started_nat : ℕ → IpTables W → Option (W × Outcome) → Started
  started_nat fuel ipt none = none
  started_nat fuel ipt (some (w, succeeded)) =
      started_filter (record ipt { nat_chain_setup = true; system = w })
        (setup_chain fuel "filter" ("FORWARD" ∷ "INPUT" ∷ []) w)
  started_nat fuel ipt (some (w, o)) = some (record ipt { system = w }, o)

  unfoldable pub start : ℕ → IpTables W → Started
  unfolding started_nat started_filter setup_chain
  start fuel ipt =
      started_nat fuel ipt (setup_chain fuel "nat" ("PREROUTING" ∷ "OUTPUT" ∷ []) ipt.system)

  -- Errors of deleteChain are logged.
  deleted : Option (W × Outcome) → Option W
  deleted none = none
  deleted (some (w, o)) = some w

  stop_nat : ℕ → Bool → W → Option W
  stop_nat fuel false w = some w
  stop_nat fuel true w = deleted (delete_chain fuel "nat" ("PREROUTING" ∷ []) w)

  stop_filter : ℕ → Bool → W → Option W
  stop_filter fuel false w = some w
  stop_filter fuel true w = deleted (delete_chain fuel "filter" ("FORWARD" ∷ "INPUT" ∷ []) w)

  unfoldable pub stop : ℕ → IpTables W → Option (IpTables W)
  unfolding stop_nat stop_filter deleted delete_chain
  stop fuel ipt = elim (stop_nat fuel ipt.nat_chain_setup ipt.system) [
    | none ↦ none
    | some u ↦ elim (stop_filter fuel ipt.filter_chain_setup u) [
      | none ↦ none
      | some v ↦ some (record { nat_chain_setup = false; filter_chain_setup = false; system = v })
    ]
  ]

  frob_rule : String → String → Args → W → W × Outcome
  frob_rule table op args w =
      do_ip_tables (line ("-t" ∷ table ∷ op ∷ chain ∷ []) (cons (group args) nil)) w

  unfoldable pub add_rule : String → Args → W → W × Outcome
  unfolding frob_rule do_ip_tables
  add_rule table args w = frob_rule table "-A" args w

  unfoldable pub delete_rule : String → Args → W → W × Outcome
  unfolding frob_rule do_ip_tables
  delete_rule table args w = frob_rule table "-D" args w

  -- The loop of deleteChainRule ends, with more fuel than there are rules that the command deletes:
  -- each call that succeeds leaves fewer of them.
  pub delete_chain_rule-returns :
      (rules : W → ℕ) (table hook_chain : String) (rule : Args)
      → ((w u : W)
          → do_ip_tables (delete_args table hook_chain rule) w ≡ (u, succeeded)
          → rules u < rules w)
      → (fuel : ℕ) (w : W) → rules w < fuel
      → is_some (delete_chain_rule fuel table hook_chain rule w) ≡ true
  unfolding delete_chain_rule
  delete_chain_rule-returns rules table hook_chain rule fewer zero w h = ground (arith, h)
  delete_chain_rule-returns rules table hook_chain rule fewer (suc fuel) w h =
      answered (do_ip_tables (delete_args table hook_chain rule) w) refl
        (delete_chain_rule-returns rules table hook_chain rule fewer fuel)
    where
      answered :
          (p : W × Outcome)
          → do_ip_tables (delete_args table hook_chain rule) w ≡ p
          → ((u : W)
              → rules u < fuel
              → is_some (delete_chain_rule fuel table hook_chain rule u) ≡ true)
          → is_some (elim p.1 [
            | succeeded ↦ delete_chain_rule fuel table hook_chain rule p.0
            | command_failed ↦ some (p.0, succeeded)
            | other_error ↦ some (p.0, other_error)
          ])
            ≡ true
      answered (u, succeeded) e again = again u (omega (arith, h, fewer w u e))
      answered (u, command_failed) e again = refl
      answered (u, other_error) e again = refl
