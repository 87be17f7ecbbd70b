-- ===== src/Runtime/Routed.antt =====
-- Several implementations of virtual machines behind one: `RoutedRuntime` (pkg/runtime/routed.go)
-- and the interface `NodeBackend` (pkg/runtime/backend.go).
pub mod Inventory
pub mod Groups
use kiac.Base.{
  ◌==◌, if◌then◌else◌, is_some, Eq, ◌===◌, Text, text, elem, Result, ok, err, ◌>>=◌, ℕ, suc, Bool,
  ◌&&◌, Option, none, some, List, [], ◌∷◌, ◌++◌, map, nat_eq, bool_eq, text_eq, pair_eq, int_eq,
}
use kiac.Base.Dict.{Dict, get_or, put}
use kiac.Runtime.Mount.{Mount}

-- `RunOpts` (pkg/runtime/container.go)
pub record RunOpts : Type 0 where
  pub backend : Text
  pub name : Text
  pub image : Text
  pub distro : Text
  pub k8s_version : Text
  pub gpu : Bool
  pub cpus : Text
  pub memory : Text
  pub disk_size : Text
  pub network_id : Text
  pub env : List Text
  pub entrypoint : Text
  pub kernel : Text
  pub args : List Text
  pub dns : List Text
  pub mounts : List Mount
  pub publish : List Text
  pub virtualization : Bool

-- `Info` (pkg/runtime/container.go)
pub record Info : Type 0 where
  pub name : Text
  pub image : Text
  pub status : Text
  pub ip : Text
  pub created : Text
  pub backend : Text
  pub distro : Text
  pub k8s_version : Text
  pub gpu : Bool

-- The calls that are for one node; what they take besides its name.
pub data NodeCall : Type 0 where
  exec : List Text → NodeCall
  exec_timeout : ℕ → List Text → NodeCall
  exec_stdin : Text → List Text → NodeCall
  exec_stdin_timeout : ℕ → Text → List Text → NodeCall
  wait_ready : ℕ → NodeCall
  logs : ℕ → NodeCall
  ip_address : NodeCall
  ipv6_address : NodeCall
  stop : NodeCall
  start : NodeCall

-- The machines behind the runtimes: `Handle` is a value of the interface `NodeBackend`.
pub record Backends : Type 1 where
  pub Handle : Type 0
  pub handle_eq : Eq Handle
  pub State : Type 0
  pub Failure : Type 0
  pub run_detached : Handle → RunOpts → State → Result Failure (Unit {0}) × State
  pub call : Handle → Text → NodeCall → State → Result Failure Text × State
  pub list : Handle → Text → State → List Info × Option Failure
  pub remove : Handle → List Text → State → Option Failure × State

abbrev pub backend_container : Text
backend_container = text "container"

module _ (b : Backends) where
  open b use {Handle, State, Failure}

  -- `BackendRoute`; a nil backend or a nil match is `none`.
  pub record BackendRoute : Type 0 where
    pub name : Text
    pub match_name : Option (Text → Bool)
    pub backend : Option Handle

  pub record RoutedRuntime : Type 0 where
    pub primary : Handle
    pub routes : List BackendRoute

  pub data RoutedError : Type 0 where
    unknown_backend : Text → RoutedError
    failed : Failure → RoutedError
    listing_failed : Text → Failure → RoutedError
    two_backends : Text → RoutedError
    removing_failed : List Text → Failure → RoutedError

  matched : Option (Text → Bool) → Option Handle → Text → Option Handle
  matched (some matches) (some h) name = if matches name then some h else none
  matched none h name = none
  matched (some matches) none name = none

  route_or : Option Handle → Handle → Handle
  route_or none rest = rest
  route_or (some h) rest = h

  -- `backendFor`: the first route that matches, else the primary.
  backend_in : Handle → List BackendRoute → Text → Handle
  unfolding matched route_or
  backend_in primary [] name = primary
  backend_in primary (r ∷ rs) name =
      route_or (matched r.match_name r.backend name) (backend_in primary rs name)

  unfoldable pub backend_for : RoutedRuntime → Text → Handle
  unfolding backend_in
  backend_for r name = backend_in r.primary r.routes name

  -- The first route of a name that has a backend.
  named_backend : Text → List BackendRoute → Option Handle
  named_backend name [] = none
  named_backend name (r ∷ rs) =
      if r.name === name && is_some r.backend then r.backend else named_backend name rs

  wrapped : Result Failure (Unit {0}) × State → Result RoutedError (Unit {0}) × State
  wrapped (ok u, s) = (ok u, s)
  wrapped (err e, s) = (err (failed e), s)

  run_named : RunOpts → Option Handle → State → Result RoutedError (Unit {0}) × State
  unfolding wrapped
  run_named opts none s = (err (unknown_backend opts.backend), s)
  run_named opts (some h) s = wrapped (b.run_detached h opts s)

  -- `RoutedRuntime.RunDetached`
  unfoldable pub run_detached :
      RoutedRuntime → RunOpts → State → Result RoutedError (Unit {0}) × State
  unfolding wrapped run_named named_backend
  run_detached r opts s =
      if opts.backend === []
      then wrapped (b.run_detached (backend_for r opts.name) opts s)
      else if opts.backend === backend_container
      then wrapped (b.run_detached r.primary opts s)
      else run_named opts (named_backend opts.backend r.routes) s

  -- `Exec`, `WaitReady`, `Stop` and the others: the backend of the node is called.
  unfoldable pub node_call : RoutedRuntime → Text → NodeCall → State → Result Failure Text × State
  node_call r name c s = b.call (backend_for r name) name c s

  with_backend : Text → Info → Info
  with_backend backend i = if i.backend === [] then record i { backend = backend } else i

  -- `infos`, `alternateRows` and `seen`
  pub record Listing : Type 0 where
    pub infos : List Info
    pub alternate_rows : ℕ
    pub seen : List Text

  add_row : Text → Info → Listing → Result RoutedError Listing
  unfolding with_backend
  add_row route i l =
      if elem i.name l.seen
      then err (two_backends i.name)
      else ok (record {
        infos = l.infos ++ (with_backend route i ∷ []);
        alternate_rows = suc l.alternate_rows;
        seen = i.name ∷ l.seen;
      })

  add_rows : Text → List Info → Listing → Result RoutedError Listing
  unfolding add_row
  add_rows route [] l = ok l
  add_rows route (i ∷ is) l = add_row route i l >>= add_rows route is

  listed : Text → List Info × Option Failure → Listing → Result RoutedError Listing
  unfolding add_rows
  listed route (rows, some e) l = err (listing_failed route e)
  listed route (rows, none) l = add_rows route rows l

  add_backend : Text → State → Text → Option Handle → Listing → Result RoutedError Listing
  unfolding listed
  add_backend prefix s route none l = ok l
  add_backend prefix s route (some h) l = listed route (b.list h prefix s) l

  add_routes : Text → State → List BackendRoute → Listing → Result RoutedError Listing
  unfolding add_backend
  add_routes prefix s [] l = ok l
  add_routes prefix s (r ∷ rs) l =
      add_backend prefix s r.name r.backend l >>= add_routes prefix s rs

  -- The error of the primary counts only if no other backend has a node.
  finish : Option Failure → Listing → Result RoutedError (List Info)
  finish none l = ok l.infos
  finish (some e) l = if l.alternate_rows == 0 then err (failed e) else ok l.infos

  start_listing : List Info → Listing
  unfolding with_backend
  start_listing rows = record {
    infos = map (with_backend backend_container) rows;
    alternate_rows = 0;
    seen = map (λ (i : Info). i.name) rows;
  }

  list_from :
      Text → State → List BackendRoute → List Info × Option Failure → Result RoutedError (List Info)
  unfolding start_listing add_routes finish
  list_from prefix s routes (rows, e) = add_routes prefix s routes (start_listing rows) >>= finish e

  -- `RoutedRuntime.List`
  unfoldable pub list : RoutedRuntime → Text → State → Result RoutedError (List Info)
  unfolding list_from
  list r prefix s = list_from prefix s r.routes (b.list r.primary prefix s)

  -- The names that each backend is to remove.
  abbrev pub NameGroups : Type 0
  NameGroups = Dict Handle (List Text)

  add_name : RoutedRuntime → Text → NameGroups → NameGroups
  add_name r name groups =
      let h = backend_for r name in
      put ⦃e = b.handle_eq⦄ h (get_or ⦃e = b.handle_eq⦄ h [] groups ++ (name ∷ [])) groups

  unfoldable pub name_groups : RoutedRuntime → List Text → NameGroups → NameGroups
  unfolding add_name
  name_groups r [] groups = groups
  name_groups r (n ∷ ns) groups = name_groups r ns (add_name r n groups)

  removed : List Text → Option Failure → List RoutedError
  removed group none = []
  removed group (some e) = removing_failed group e ∷ []

  -- A group that fails does not stop the next.
  unfoldable pub remove_groups : NameGroups → State → List RoutedError × State
  unfolding removed
  remove_groups [] s = ([], s)
  remove_groups ((h, group) ∷ rest) s =
      let (e, s') = b.remove h group s in
      let (es, s'') = remove_groups rest s' in (removed group e ++ es, s'')

  -- `RoutedRuntime.Remove`; `order` is the order in which Go goes over the map.
  unfoldable pub remove :
      RoutedRuntime → (NameGroups → NameGroups) → List Text → State → List RoutedError × State
  remove r order names s = remove_groups (order (name_groups r names [])) s
