-- ===== src/Store/Etcd/Watch/Forgotten.antt =====
-- About the services that a watch forgets.
use ambergreen.Common.{
  String, ◌≡◌, refl, Bool, true, false, ◌||◌, ◌&&◌, List, [], ◌∷◌, ◌++◌, map, ◌==◌, string_eq,
  arith, inl, inr, Bool-cases,
}
use ambergreen.GoMap
use ambergreen.GoMap.{Map, keys}
use ambergreen.Store.Data.{ServiceChange, QueryServiceOptions}
use ambergreen.Store.Etcd.Keys.{
  ParsedKey, parsed_root, parsed_service_root, parsed_service, parsed_rule, parsed_instance,
  parsed_ingress_instance, no_key, parse_key, relevant_to,
}
use ambergreen.Store.Etcd.Watch.{
  Response, Watched, gone, handle_set, handle_delete, handle_response, handle_responses,
}

-- Whether a service is among those that are reported as deleted.
unfoldable pub reports : String → List ServiceChange → Bool
reports name [] = false
reports name (c ∷ cs) = (c.service_deleted && c.name == name) || reports name cs

reports-append :
    (name : String) (cs ds : List ServiceChange)
    → reports name (cs ++ ds) ≡ (reports name cs || reports name ds)
unfolding reports
reports-append name [] ds = refl
reports-append name (c ∷ cs) ds = ground (arith, reports-append name cs ds)

reports-gone :
    (name : String) (svcs : Map String (Unit {0}))
    → reports name (map gone (keys svcs)) ≡ GoMap.has name svcs
unfolding reports GoMap.has GoMap.lookup
reports-gone name [] = refl
reports-gone name ((j, u) ∷ m) = ground (arith, reports-gone name m)

-- A service that was known is still known, or is reported.
abbrev Accounts : String → Map String (Unit {0}) → Watched → Type 0
Accounts name svcs r = GoMap.has name svcs ≡ true → (GoMap.has name r.0 || reports name r.1) ≡ true

module _ (opts : QueryServiceOptions) (name : String) where
  delete-Accounts :
      (key : ParsedKey) (svcs : Map String (Unit {0}))
      → Accounts name svcs (handle_delete opts key svcs)
  unfolding handle_delete relevant_to reports
  delete-Accounts parsed_root svcs h = ground (arith, h, reports-gone name svcs)
  delete-Accounts (parsed_service_root s) svcs h = ground (arith, h, GoMap.has-delete s name svcs)
  delete-Accounts (parsed_service s) svcs h = ground (arith, h)
  delete-Accounts (parsed_rule s r) svcs h = ground (arith, h)
  delete-Accounts (parsed_instance s i) svcs h = ground (arith, h)
  delete-Accounts (parsed_ingress_instance s a) svcs h = ground (arith, h)
  delete-Accounts no_key svcs h = ground (arith, h)

  set-Accounts :
      (key : ParsedKey) (svcs : Map String (Unit {0}))
      → Accounts name svcs (handle_set opts key svcs)
  unfolding handle_set relevant_to reports
  set-Accounts (parsed_service s) svcs h = ground (arith, h, GoMap.has-insert s name tt svcs)
  set-Accounts parsed_root svcs h = ground (arith, h)
  set-Accounts (parsed_service_root s) svcs h = ground (arith, h)
  set-Accounts (parsed_rule s r) svcs h = ground (arith, h)
  set-Accounts (parsed_instance s i) svcs h = ground (arith, h)
  set-Accounts (parsed_ingress_instance s a) svcs h = ground (arith, h)
  set-Accounts no_key svcs h = ground (arith, h)

  response-Accounts :
      (r : Response) (svcs : Map String (Unit {0}))
      → Accounts name svcs (handle_response opts r svcs)
  unfolding handle_response
  response-Accounts r svcs h = elim (Bool-cases (r.action == "delete")) [
    | inl del ↦ rw (del, handle_response) (delete-Accounts (parse_key r.key) svcs h)
    | inr other ↦ elim (Bool-cases (r.action == "set")) [
      | inl set ↦ rw (other, set, handle_response) (set-Accounts (parse_key r.key) svcs h)
      | inr none_ ↦ rw (other, none_, handle_response) (ground (arith, h))
    ]
  ]

  -- Whatever responses etcd gives, a service that the watch knew at first and no longer knows at the
  -- end has been reported as deleted.
  pub handle_responses-reports :
      (rs : List Response) (svcs : Map String (Unit {0}))
      → GoMap.has name svcs ≡ true
      → GoMap.has name (handle_responses opts rs svcs).0 ≡ false
      → reports name (handle_responses opts rs svcs).1 ≡ true
  unfolding handle_responses
  handle_responses-reports [] svcs known gone_ = cc
  handle_responses-reports (r ∷ rs) svcs known gone_ =
      let first = handle_response opts r svcs in
      let later = handle_responses opts rs first.0 in
      ground (
        arith,
        response-Accounts r svcs known,
        reports-append name first.1 later.1,
        handle_responses-reports rs first.0,
        gone_,
      )
