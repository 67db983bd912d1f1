-- ===== src/Store/Etcd/Agreement/EachCall.antt =====
-- Each call, as a watcher of the services sees it in both stores.
use ambergreen.Common.{ℕ, String, ◌≡◌, List, none, [], ◌∷◌, ◌++◌, string_eq}
use ambergreen.GoMap
use ambergreen.GoMap.{Map}
use ambergreen.Net.{IpPort, ip_port_eq}
use ambergreen.Store.Data.{QueryServiceOptions}
use ambergreen.Store.InMemState.{InMem, service_watcher}
use ambergreen.Store.InMem
use ambergreen.Store.InMem.{Reply}
use ambergreen.Store.InMem.Session
use ambergreen.Store.InMem.Calls.{Call}
use ambergreen.Store.Etcd.Client.{Codec, Etcd}
use ambergreen.Store.Etcd.Requests
use ambergreen.Store.Etcd.Requests.{Written, Waiting}
use ambergreen.Store.Etcd.Watch.{Response}
use ambergreen.Store.Etcd.Agreement.{Documented, told, requested}

module _ (opts : QueryServiceOptions) (w : ℕ) (codec : Codec) (address : IpPort → String)
    {W : Type 0} (etcd : Etcd W) (sent : W → List Response) (doc : Documented etcd sent) where
  -- The etcd store returns no error for the call, from a state of etcd.
  abbrev pub IsGranted : Call → W → Type 0
  IsGranted c x = (requested codec address etcd c x).1 ≡ none

  -- The responses that etcd sends for the call tell the watcher what the in-memory store sends it, from one
  -- state to another.
  abbrev pub IsTold : Map String (Unit {0}) → Call → W → InMem → InMem → Type 0
  IsTold svcs c x s t =
      (rs : List Response) × (sent (requested codec address etcd c x).0 ≡ sent x ++ rs)
      × (t.sent ≡ s.sent ++ told opts w svcs rs)

  module _ (svcs : Map String (Unit {0})) (x : W) (s : InMem)
      (h : s.watchers ≡ service_watcher w opts ∷ []) where
    abbrev Told : Call → InMem → Type 0
    Told c t = IsTold svcs c x s t
