-- ===== src/Store/Etcd/Client.antt =====
-- What etcdstore.go and gc.go take of the etcd client and of encoding/json: nodes, replies and the
-- requests, as parameters.
use ambergreen.Common.{ℕ, String, Bool, Option, none, some}
use ambergreen.Store.Data.{ContainerRule, Service, Instance, IngressInstance, Host}
use ambergreen.Store.InMemState.{Sessioned}

-- etcd.Node; a missing list of nodes is an empty one.
mutual
  pub data Node : Type 0 where
    node : String → String → Bool → ℕ → Nodes → Node

  pub data Nodes : Type 0 where
    nil : Nodes
    cons : Node → Nodes → Nodes

abbrev pub key : Node → String
key (node k v d m ns) = k

abbrev pub value : Node → String
value (node k v d m ns) = v

abbrev pub dir : Node → Bool
dir (node k v d m ns) = d

abbrev pub modified_index : Node → ℕ
modified_index (node k v d m ns) = m

abbrev pub nodes : Node → Nodes
nodes (node k v d m ns) = ns

-- An etcd.Error; ErrorCodeKeyNotFound comes with the index of etcd.
pub data EtcdError : Type 0 where
  key_not_found : ℕ → EtcdError
  other_error : ℕ → EtcdError

pub data Error : Type 0 where
  etcd_error : EtcdError → Error
  bad_json : Error
  expected_dir : String → Error
  missing_details : String → Error
  bad_address : String → Error

-- A call that returns a value and an error.
pub data Answer {ℓ} (A : Type ℓ) : Type ℓ where
  answered : A → Answer A
  failed : Error → Answer A

infixl 5 ◌>>=◌
abbrev pub ◌>>=◌ {κ ℓ} : {S : Type κ} {A : Type ℓ} → Answer S → (S → Answer A) → Answer A
answered s >>= next = next s
failed e >>= next = failed e

pub data Fetched : Type 0 where
  fetched : Node → ℕ → Fetched
  refused : EtcdError → Fetched

-- The requests that the store makes. `W` is the state of etcd.
pub record Etcd (W : Type 0) : Type 0 where
  -- Get, with the option Recursive
  pub get : String → Bool → W → Fetched
  -- Set, with no time to live
  pub set : String → String → W → W × Option EtcdError
  -- Set, with a time to live
  pub set_ttl : String → String → ℕ → W → W × Option EtcdError
  -- Delete, with the option Recursive
  pub delete : String → Bool → W → W × Option EtcdError
  -- Delete, with the option PrevIndex
  pub delete_at : String → ℕ → W → W × Option EtcdError

-- json.Marshal and json.Unmarshal at a type; `none` is an error.
pub record Json (A : Type 0) : Type 0 where
  pub encode : A → Option String
  pub decode : String → Option A

pub record Codec : Type 0 where
  pub service : Json Service
  pub rule : Json ContainerRule
  pub instance_ : Json (Sessioned Instance)
  pub ingress_instance : Json (Sessioned IngressInstance)
  pub host : Json (Sessioned Host)
  -- SessionValue
  pub session_value : Json String

abbrev pub decoded {ℓ} : {A : Type ℓ} → Option A → Answer A
decoded none = failed bad_json
decoded (some a) = answered a
