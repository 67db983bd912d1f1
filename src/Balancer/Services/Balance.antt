-- ===== src/Balancer/Services/Balance.antt =====
-- About the rules and listeners that are open, and those that the services hold.
use ambergreen.Common.{
  ℕ, ◌+◌, ◌∙◌, ap, String, ◌≡◌, refl, Bool, true, false, Option, none, some, List, [], ◌∷◌, ok,
  >>=-eq-ok, ok-injective, for_each, for_each-inv, string_eq, is_some, if◌then◌else◌, arith, inl,
  inr, subst, Bool-cases,
}
use ambergreen.GoMap
use ambergreen.GoMap.{Unique, insert-Unique, delete-Unique, Map, keys}
use ambergreen.Net.{ip_port_eq}
use ambergreen.Balancer.Model.{Service, ServiceUpdate}
use ambergreen.Balancer.Services.{
  Resource, World, Environment, ServiceState, rejecting, forwarding, Started, Services,
  open_resource, close_resource, set_forwarder, start_rejecting, start_forwarding, stop_state,
  update_kept, is_nil_map, listener, reject_at, forward_at, start_state, restart, replace_state,
  update_state, put_state, do_change, do_change_found, is_live, prune_found, prune, do_update,
}
use ambergreen.Balancer.Services.Resources.{
  count, given_up, left-stop_state, held_by, held_opt, held, held-insert, held-delete,
  given_up-stop_state, opened-stop_state,
}

-- From the world `w` and a service that holds `o` to the world `w'` where it holds `o'`.
record Moves (r : Resource) (w : World) (o : Option ServiceState) (w' : World)
    (o' : Option ServiceState) : Type 0 where
  even :
      count r w'.opened + given_up r w + held_opt r o
      ≡ count r w.opened + given_up r w' + held_opt r o'
  left : (n : ℕ) → count (listener n) w'.left ≡ count (listener n) w.left
  kept : is_some o ≡ true → is_some o' ≡ true

-- What is started is opened, and nothing is left behind.
abbrev Starts : Resource → World → Started → Type 0
Starts r w p =
    (count r p.1.opened + given_up r w ≡ count r w.opened + given_up r p.1 + held_opt r p.0)
    × (p.1.left ≡ w.left)

module _ (env : Environment) (r : Resource) where
  start_rejecting-even :
      (s : Service) (w : World) (p : Started) → start_rejecting env s w ≡ ok p → Starts r w p
  unfolding start_rejecting reject_at open_resource count held_by
  start_rejecting-even s w p e = (ground (arith, e), ground (arith, e))

  start_forwarding-even :
      (s : Service) (w : World) (p : Started) → start_forwarding env s w ≡ ok p → Starts r w p
  unfolding start_forwarding forward_at open_resource close_resource set_forwarder count held_by
  start_forwarding-even s w p e = (ground (arith, e), ground (arith, e))

  start_state-even :
      (s : Service) (w : World) (p : Started) → start_state env s w ≡ ok p → Starts r w p
  unfolding start_state
  start_state-even s w p e = elim (Bool-cases (is_nil_map s.instances)) [
    | inl none_there ↦ start_rejecting-even s w p (rw none_there at e)
    | inr some_there ↦ start_forwarding-even s w p (rw some_there at e)
  ]

  replace-Moves :
      (o : Option ServiceState) (w : World) (p : Started)
      → Starts r w p
      → Moves r w o (replace_state env o p).1 (replace_state env o p).0
  replace-Moves o w (none, w') e = record {
    even = omega (arith, e.0);
    left = λ n. ap (count (listener n)) e.1;
    kept = λ h. h;
  }
  replace-Moves none w (some new, w') e = record {
    even = omega (arith, e.0);
    left = λ n. ap (count (listener n)) e.1;
    kept = λ h. refl;
  }
  replace-Moves (some old) w (some new, w') e = record {
    even =
        rw (opened-stop_state r env old w', given_up-stop_state r env old w') (omega (arith, e.0));
    left = λ n. left-stop_state n env old w' ∙ ap (count (listener n)) e.1;
    kept = λ h. refl;
  }

  restart-Moves :
      (o : Option ServiceState) (s : Service) (w : World) (p : Started)
      → restart env o s w ≡ ok p
      → Moves r w o p.1 p.0
  unfolding restart
  restart-Moves o s w p e =
      let (q, started, last) = >>=-eq-ok (start_state env s w) _ e in
      subst (λ (p : Started). Moves r w o p.1 p.0) (ok-injective last)
        (replace-Moves o w q (start_state-even s w q started))

  -- The method update opens and closes nothing.
  update_kept-resources :
      (state : ServiceState) (s : Service) (w : World) (p : Bool × World)
      → update_kept state s w ≡ ok p
      → (p.1.opened ≡ w.opened) × (p.1.closed ≡ w.closed) × (p.1.left ≡ w.left)
  unfolding update_kept set_forwarder
  update_kept-resources (rejecting addr) s w p e =
      (ground (arith, e), ground (arith, e), ground (arith, e))
  update_kept-resources (forwarding old addr fwd) s w p e =
      (ground (arith, e), ground (arith, e), ground (arith, e))

  update_state-Moves :
      (o : Option ServiceState) (s : Service) (w : World) (p : Started)
      → update_state env o s w ≡ ok p
      → Moves r w o p.1 p.0
  unfolding update_state
  update_state-Moves none s w p e = restart-Moves none s w p e
  update_state-Moves (some state) s w p e =
      let ((kept, w'), updated, rest) = >>=-eq-ok (update_kept state s w) _ e in
      let same = update_kept-resources state s w (kept, w') updated in after kept w' same rest
    where
      after :
          (kept : Bool) (w' : World)
          → (w'.opened ≡ w.opened) × (w'.closed ≡ w.closed) × (w'.left ≡ w.left)
          → (if kept then ok (some state, w') else restart env (some state) s w') ≡ ok p
          → Moves r w (some state) p.1 p.0
      after true w' same q =
          subst (λ (p : Started). Moves r w (some state) p.1 p.0) (ok-injective q)
            (record {
              even = ground (arith, same.0, same.1, same.2);
              left = λ n. ap (count (listener n)) same.2;
              kept = λ h. refl;
            })
      after false w' same q =
          let m = restart-Moves (some state) s w' p q in
          record {
            even = ground (arith, m.even, same.0, same.1, same.2);
            left = λ n. m.left n ∙ ap (count (listener n)) same.2;
            kept = m.kept;
          }

-- No name stands twice; every resource has been opened exactly as often as it has been closed, was left
-- behind since its deletion was refused, or is held by a service; and no listener was left behind.
pub record Balanced (svcs : Services) : Type 0 where
  pub unique : Unique svcs.services
  pub even :
      (r : Resource) → count r svcs.world.opened ≡ given_up r svcs.world + held r svcs.services
  pub left : (n : ℕ) → count (listener n) svcs.world.left ≡ 0

put_state-Balanced :
    (name : String) (svcs : Services) (p : Started)
    → ((r : Resource) → Moves r svcs.world (GoMap.lookup name svcs.services) p.1 p.0)
    → Balanced svcs
    → Balanced (put_state name svcs.services p)
put_state-Balanced name svcs (none, w) moves b = record {
  unique = b.unique;
  even = λ r. ground (arith, b.even r, (moves r).even, (moves r).kept);
  left = λ n. (moves (listener n)).left n ∙ b.left n;
}
put_state-Balanced name svcs (some state, w) moves b = record {
  unique = insert-Unique name state svcs.services b.unique;
  even = λ r. omega (arith, b.even r, (moves r).even, held-insert r name state svcs.services);
  left = λ n. (moves (listener n)).left n ∙ b.left n;
}

module _ (env : Environment) where
  stopped-Balanced :
      (name : String) (state : ServiceState) (svcs : Services)
      → GoMap.lookup name svcs.services ≡ some state
      → Balanced svcs
      → Balanced (record {
        services = GoMap.delete name svcs.services;
        world = stop_state env state svcs.world;
      })
  stopped-Balanced name state svcs q b = record {
    unique = delete-Unique name svcs.services b.unique;
    even = λ r.
        rw (opened-stop_state r env state svcs.world, given_up-stop_state r env state svcs.world)
          (ground (arith, b.even r, held-delete r name svcs.services b.unique, q));
    left = λ n. left-stop_state n env state svcs.world ∙ b.left n;
  }

  pruned-Balanced :
      (name : String) (svcs : Services) (o : Option ServiceState)
      → GoMap.lookup name svcs.services ≡ o
      → Balanced svcs
      → Balanced (prune_found env name svcs o)
  pruned-Balanced name svcs none q b = b
  pruned-Balanced name svcs (some state) q b = stopped-Balanced name state svcs q b

  do_change-Balanced :
      (c : String × Option Service) (svcs svcs' : Services)
      → Balanced svcs
      → do_change env c svcs ≡ ok svcs'
      → Balanced svcs'
  unfolding do_change
  do_change-Balanced (name, none) svcs svcs' b e = found (GoMap.lookup name svcs.services) refl e
    where
      found :
          (o : Option ServiceState)
          → GoMap.lookup name svcs.services ≡ o
          → do_change_found env name none svcs o ≡ ok svcs'
          → Balanced svcs'
      found none q e = subst Balanced (ok-injective e) b
      found (some state) q e =
          subst Balanced (ok-injective e) (stopped-Balanced name state svcs q b)
  do_change-Balanced (name, some s) svcs svcs' b e =
      let old = GoMap.lookup name svcs.services in
      let (p, updated, last) = >>=-eq-ok (update_state env old s svcs.world) _ e in
      subst Balanced (ok-injective last) (
        put_state-Balanced name svcs p (λ r. update_state-Moves env r old s svcs.world p updated) b)

  prune-Balanced :
      (updates : Map String (Option Service)) (names : List String) (svcs : Services)
      → Balanced svcs
      → Balanced (prune env updates names svcs)
  unfolding prune
  prune-Balanced updates [] svcs b = b
  prune-Balanced updates (name ∷ names) svcs b =
      elim (Bool-cases (is_live (GoMap.lookup name updates))) [
        | inl live ↦ rw live (prune-Balanced updates names svcs b)
        | inr gone ↦ rw gone (
            prune-Balanced updates names
              (prune_found env name svcs (GoMap.lookup name svcs.services))
              (pruned-Balanced name svcs (GoMap.lookup name svcs.services) refl b))
      ]

  -- An update that does not panic keeps the balance, whatever rules, deletions of rules and listeners the
  -- environment refuses: no name stands twice, every rule and listener was opened as often as it was
  -- closed, was left behind since its deletion was refused, or is held by a service, and no listener was
  -- left behind.
  pub do_update-Balanced :
      (update : ServiceUpdate) (svcs svcs' : Services)
      → Balanced svcs
      → do_update env update svcs ≡ ok svcs'
      → Balanced svcs'
  unfolding do_update
  do_update-Balanced update svcs svcs' b e =
      let (t, changed, last) = >>=-eq-ok (for_each (do_change env) update.updates svcs) _ e in
      let b' =
        for_each-inv Balanced (do_change env) do_change-Balanced update.updates svcs t b changed in
      elim (Bool-cases update.reset) [
        | inl reset ↦
            subst Balanced (ok-injective (rw reset at last))
              (prune-Balanced update.updates (keys t.services) t b')
        | inr change ↦ subst Balanced (ok-injective (rw change at last)) b'
      ]
