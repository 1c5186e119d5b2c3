-- ===== src/Connect/Authorized.antt =====
-- Who gets a handler.
use mathlib.Core.Path.{subst}
use cluster_gateway.Base.{
  ℕ, List, Error, String, ◌≡◌, refl, sym, ap, ◌∙◌, inl, inr, ◌⊎◌, true, false, Option, none, some,
  Bool-cases, Result, ok, err, panic, deref, >>=-eq-ok, ok-injective,
}
use cluster_gateway.Proxy.{ProxyHandler}
use cluster_gateway.Metrics.{Vectors, Metrics, finish_func}
use cluster_gateway.Connect.{
  ClusterGatewayProxyOptions, Options, proxy_options, other_options, RequestInfo, Attributes,
  Decision, allow, deny, no_opinion, is_allow, Server, attributes, decided, authorized,
  proxy_request_info, parent, connect,
}

deref-some : {A : Type 0} (o : Option A) {a : A} → deref o ≡ ok a → o ≡ some a
deref-some none h = cc h
deref-some (some b) h = ap some (ok-injective h)

module _ (server : Server) where
  decided-allow : (r : Result Decision) (u : Unit {0}) → decided server r ≡ ok u → r ≡ ok allow
  unfolding decided is_allow
  decided-allow (ok allow) u h = refl
  decided-allow (ok deny) u h = let (_, _, e) = >>=-eq-ok (deref server.user) _ h in cc e
  decided-allow (ok no_opinion) u h = let (_, _, e) = >>=-eq-ok (deref server.user) _ h in cc e
  decided-allow (err e) u h = cc h
  decided-allow panic u h = cc h

  authorized-allow :
      (info : RequestInfo) (u : Unit {0})
      → server.authorize_proxy_subpath ≡ true
      → authorized server info ≡ ok u
      → (a : Attributes) × (attributes server info ≡ ok a) × (server.authorize a ≡ ok allow)
  unfolding authorized
  authorized-allow info u on h =
      let (a, ha, hd) = >>=-eq-ok (attributes server info) _ (simp on at h) in
      (a, ha, decided-allow (server.authorize a) u hd)

  -- What the authorizer is asked of the info of the request behind the proxy.
  abbrev pub Asks : RequestInfo → RequestInfo → Attributes → Type 0
  Asks info req_info a =
      (a.user ≡ server.user)
      × (a.verb ≡ req_info.verb)
      × (a.resource_request ≡ false)
      × (((info.is_resource_request ≡ true)
            × (a.path ≡ "")
            × (a.api_group ≡ info.api_group)
            × (a.api_version ≡ info.api_version)
            × (a.resource ≡ info.resource)
            × (a.subresource ≡ info.subresource)
            × (a.namespace ≡ info.namespace)
            × (a.name ≡ info.name))
          ⊎ ((info.is_resource_request ≡ false)
              × (server.parse_request_uri info.path ≡ some a.path)
              × (a.resource ≡ "")))

  attributes-Asks :
      (req_info : RequestInfo) (path : String) (a : Attributes)
      → attributes server (proxy_request_info server req_info path) ≡ ok a
      → Asks (server.new_request_info path (server.to_upper req_info.verb)) req_info a
  unfolding attributes proxy_request_info
  attributes-Asks req_info path a h =
      let info = server.new_request_info path (server.to_upper req_info.verb) in
      elim (Bool-cases info.is_resource_request) [
        | inl resource ↦
            subst (Asks info req_info) (ok-injective (rw resource at h))
              (refl, refl, refl, inl (resource, refl, refl, refl, refl, refl, refl, refl))
        | inr other ↦
            let (p, parsed, h1) =
              >>=-eq-ok (deref (server.parse_request_uri info.path)) _ (rw other at h) in
            subst (Asks info req_info) (ok-injective h1)
              (refl, refl, refl, inr (other, deref-some _ parsed, refl))
      ]

  -- With the option on, there is a handler only where the authorizer allows the request behind the
  -- proxy, for the user, and with the verb of the request itself. What it is asked never says that
  -- it is for a resource. Where the path is that of a resource it has the resource, its namespace
  -- and its name but no path, and otherwise the parsed path and no resource. The handler is that of
  -- the named gateway and of the same path, and impersonates where the options say so.
  pub connect-allow :
      {C H : Type 0} (vectors : Vectors C H) (id : String) (opts : ClusterGatewayProxyOptions)
      (responder : Error → List ℕ) (elapsed : ℕ) (p : ProxyHandler (Metrics C H))
      → server.authorize_proxy_subpath ≡ true
      → connect server vectors id (proxy_options opts) responder elapsed ≡ ok p
      → (req_info : RequestInfo) × (a : Attributes) × (server.request_info ≡ some req_info)
        × Asks (server.new_request_info opts.path (server.to_upper req_info.verb)) req_info a
        × (server.authorize a ≡ ok allow)
        × (parent server id ≡ ok p.cluster_gateway)
        × (p.parent_name ≡ id)
        × (p.path ≡ opts.path)
        × (p.impersonate ≡ opts.impersonate)
  unfolding connect
  connect-allow vectors id opts responder elapsed p on h =
      let (gw, hg, h1) = >>=-eq-ok (parent server id) _ h in
      let (req_info, hr, h2) = >>=-eq-ok (deref server.request_info) _ h1 in
      let (u, hu, h3) =
        >>=-eq-ok (authorized server (proxy_request_info server req_info opts.path)) _ h2 in
      let (a, ha, hd) = authorized-allow (proxy_request_info server req_info opts.path) u on hu in
      let same = ok-injective h3 in
      (
        req_info,
        a,
        deref-some server.request_info hr,
        attributes-Asks req_info opts.path a ha,
        hd,
        hg ∙ ap (λ q. ok q.cluster_gateway) same,
        sym (ap ProxyHandler.parent_name same),
        sym (ap ProxyHandler.path same),
        sym (ap ProxyHandler.impersonate same),
      )

  -- A connection's handler ends with the metrics of the connection's name.
  pub connect-finish_func :
      {C H : Type 0} (vectors : Vectors C H) (id : String) (opts : Options)
      (responder : Error → List ℕ) (elapsed : ℕ) (p : ProxyHandler (Metrics C H))
      → connect server vectors id opts responder elapsed ≡ ok p
      → (resource : String) × (verb : String) × (p.finish_func
          ≡ finish_func vectors resource verb id elapsed)
  unfolding connect
  connect-finish_func vectors id other_options responder elapsed p h = cc h
  connect-finish_func vectors id (proxy_options opts) responder elapsed p h =
      let (gw, hg, h1) = >>=-eq-ok (parent server id) _ h in
      let (req_info, hr, h2) = >>=-eq-ok (deref server.request_info) _ h1 in
      let (u, hu, h3) =
        >>=-eq-ok (authorized server (proxy_request_info server req_info opts.path)) _ h2 in
      (_, _, sym (ap ProxyHandler.finish_func (ok-injective h3)))
