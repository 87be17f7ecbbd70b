-- ===== src/EdgeProxy/Sync/Table.antt =====
-- The route table after `rewrite_rules`, a part of `syncRules` (cmd/kiac-edge-proxy/main.go).
use kiac.Base.{
  if◌then◌else◌, ◌===◌, Text, Result, ok, ◌≡◌, refl, sym, ap, ◌∙◌, ◌⊎◌, inl, inr, Bool, true, false,
  Option, none, some, [], subst, nat_eq, bool_eq, text_eq, pair_eq, int_eq,
}
use kiac.Base.Exec.{pure, modify, >>=-eq-ok, for_each}
use kiac.EdgeProxy.Cluster.{ClusterState, Decoder, parse_cluster_state}
use kiac.EdgeProxy.Iptables.{Iptables}
use kiac.EdgeProxy.Node.{Config, RouteTable, Node, ProxyError, no_routes, families}
use kiac.EdgeProxy.Routes.{add_service_rules, add_parsed_rules}
use kiac.EdgeProxy.Routes.Sound.{IsSound, no_routes-IsSound}
use kiac.EdgeProxy.Routes.Keeps.{add_services-Keeps}
use kiac.EdgeProxy.Sync.{base_rules, logged, set_routes, rewrite_rules}

-- The table is empty, or sound for the state that the snapshot decodes to.
abbrev pub Reflects : Config → Decoder → Text → RouteTable → Type 0
Reflects c d snapshot rt =
    (rt ≡ no_routes)
    ⊎ ((st : ClusterState) × (parse_cluster_state d snapshot ≡ some st) × IsSound c st rt)

module _ (t : Iptables) (c : Config) (d : Decoder) where
  open t use {Kernel}

  added_draft :
      (o : Option ClusterState) (n : Node Kernel)
      → n.draft ≡ no_routes
      → ((add_parsed_rules t c o n).1.draft ≡ no_routes)
        ⊎ ((st : ClusterState) × (o ≡ some st) × IsSound c st (add_parsed_rules t c o n).1.draft)
  unfolding add_parsed_rules
  added_draft none n e = inl e
  added_draft (some st) n e = inr (
    st,
    refl,
    (add_services-Keeps t c st).at n (subst (IsSound c st) (sym e) (no_routes-IsSound c st)),
  )

  draft_returned :
      {r r' : Result ProxyError (Unit {0})} {n m : Node Kernel}
      → ◌≡◌ {A = Result ProxyError (Unit {0}) × Node Kernel} (r, n) (r', m)
      → n.draft ≡ m.draft
  draft_returned e = ap (λ (p : Result ProxyError (Unit {0}) × Node Kernel). p.1.draft) e

  if_draft :
      (snapshot : Text) (empty : Bool) (n m : Node Kernel)
      → n.draft ≡ no_routes
      → (if empty then pure tt else logged t c (add_service_rules t c d snapshot)) n ≡ (ok tt, m)
      → Reflects c d snapshot m.draft
  unfolding logged add_service_rules
  if_draft snapshot true n m e h = inl (sym (draft_returned h) ∙ e)
  if_draft snapshot false n m e h = elim (added_draft (parse_cluster_state d snapshot) n e) [
    | inl q ↦ inl (sym (draft_returned h) ∙ q)
    | inr (st, q, s) ↦ inr (st, q, subst (IsSound c st) (draft_returned h) s)
  ]

  -- A `rewrite_rules` that succeeds puts a route table in use that is empty or whose entries all
  -- come from the state that the snapshot decodes to, and it makes the snapshot the last one.
  pub rewrite_rules-Reflects :
      (snapshot : Text) (n m : Node Kernel)
      → rewrite_rules t c d snapshot n ≡ (ok tt, m)
      → Reflects c d snapshot m.routes × (m.last_snapshot ≡ snapshot)
  unfolding rewrite_rules set_routes
  rewrite_rules-Reflects snapshot n m h =
      let (_, n1, e1, h1) = >>=-eq-ok (for_each (families c) (base_rules t c)) _ n h in
      let (_, n2, e2, h2) =
        >>=-eq-ok (modify (λ (k : Node Kernel). record k { draft = no_routes })) _ n1 h1 in
      let (_, n3, e3, h3) =
        >>=-eq-ok
          (if snapshot === [] then pure tt else logged t c (add_service_rules t c d snapshot)) _ n2
          h2 in
      let table = if_draft snapshot (snapshot === []) n2 n3 (sym (draft_returned e2)) e3 in
      (
        subst (Reflects c d snapshot)
            (ap (λ (p : Result ProxyError (Unit {0}) × Node Kernel). p.1.routes) h3) table,
        sym (ap (λ (p : Result ProxyError (Unit {0}) × Node Kernel). p.1.last_snapshot) h3),
      )
