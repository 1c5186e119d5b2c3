-- ===== src/Proxy/EndToEnd.antt =====
-- What reaches the cluster of a request that a client has sent to it.
use mathlib.Core.Path.{subst}
use cluster_gateway.Base.{
  String, ◌≡◌, refl, sym, ap, ◌++◌, All, ◌∙◌, Bool, true, false, ◌||◌, Option, none, some, ◌⧺◌,
  Bool-cases, inl, inr, ◌⊎◌, Result, ok, err, panic, wrap, >>=-eq-ok, ok-injective,
}
use cluster_gateway.Base.Text.{trim_prefix}
use cluster_gateway.Base.Maps.{lookup, IsMap}
use cluster_gateway.Api.{ClientIdentityExchangeRule, ProxyConfiguration}
use cluster_gateway.Identity.{UserInfo, ImpersonationConfig, own_identity, get_impersonation_config}
use cluster_gateway.Identity.Choice.{
  Passes, Chosen, own_rules, outcome, get_impersonation_config-first,
}
use cluster_gateway.Transport.{Net, Url, new_config_from_cluster, get_endpoint_url}
use cluster_gateway.Routing.{format_proxy_url, subresource_path}
use cluster_gateway.Routing.Paths.{subresource_path-format_proxy_url}
use cluster_gateway.Query.{Values, escape_query_values, unescape_query_values}
use cluster_gateway.Query.RoundTrip.{delivered, unescape-escape}
use cluster_gateway.Proxy.{
  Request, ProxyHandler, require, join_path, Libraries, Forwarded, impersonation, forwarded_of,
  forward,
}

wrap-eq-ok : {A : Type 0} (t : String) (m : Result A) {a : A} → wrap t m ≡ ok a → m ≡ ok a
wrap-eq-ok t (ok a) h = h
wrap-eq-ok t (err e) h = cc
wrap-eq-ok t panic h = cc

module _ (net : Net) (libraries : Libraries net) (penetration : Bool) (global : ProxyConfiguration)
    {M : Type 0} where
  -- The request `f` is the forwarding of `request` by the handler `p`.
  record Forwards (p : ProxyHandler M) (request : Request) (f : Forwarded net libraries)
      : Type 1 where
    pub url : Url
    pub url_given : get_endpoint_url net p.cluster_gateway ≡ ok url
    pub address_given : (f.scheme ≡ url.scheme) × (f.address ≡ url.host)
    pub config_given : new_config_from_cluster net p.cluster_gateway ≡ ok f.config
    pub impersonate_given :
        impersonation net libraries penetration global p request ≡ ok f.impersonate
    pub path_given :
        f.path ≡ join_path libraries.clean url.path (subresource_path p.parent_name request.path)
    pub query_given : f.query ≡ unescape_query_values (libraries.parse_query request.raw_query)
    pub location_given : f.location_query ≡ request.raw_query
    pub transport_given : libraries.transport_for f.config f.impersonate ≡ ok f.transport
    pub transport_config : libraries.TransportConfig
    pub transport_config_given :
        libraries.transport_config f.config f.impersonate ≡ ok transport_config
    pub tls_given : libraries.tls_config_for transport_config ≡ ok f.upgrade_tls
    pub upgrader_given : libraries.http_wrappers_for transport_config ≡ ok f.upgrader

  forward-Forwards :
      (p : ProxyHandler M) (request : Request) (f : Forwarded net libraries)
      → forward net libraries penetration global p request ≡ ok f
      → Forwards p request f
  unfolding forward
  forward-Forwards p request f h =
      let gw = p.cluster_gateway in
      let (cred, _, h1) = >>=-eq-ok (require gw.spec.access.credential) _ h in
      let (url, hu, h2) =
        >>=-eq-ok (wrap "failed parsing endpoint" (get_endpoint_url net gw)) _ h1 in
      let (cfg, hc, h3) =
        >>=-eq-ok
          (wrap "failed creating cluster proxy client config" (new_config_from_cluster net gw)) _
          h2 in
      let (imp, hi, h4) =
        >>=-eq-ok (impersonation net libraries penetration global p request) _ h3 in
      let (rt, ht, h5) =
        >>=-eq-ok (wrap "failed creating cluster proxy client" (libraries.transport_for cfg imp)) _
          h4 in
      let (tc, htc, h6) =
        >>=-eq-ok (wrap "failed creating transport config" (libraries.transport_config cfg imp)) _
          h5 in
      let (tls, htls, h7) =
        >>=-eq-ok (wrap "failed creating tls config" (libraries.tls_config_for tc)) _ h6 in
      let (up, hup, h8) =
        >>=-eq-ok (wrap "failed creating upgrader client" (libraries.http_wrappers_for tc)) _ h7 in
      let same : forwarded_of net libraries p request url cfg imp rt tls up ≡ f = ok-injective h8 in
      subst (Forwards p request) same (record {
        url = url;
        url_given = wrap-eq-ok _ _ hu;
        address_given = (refl, refl);
        config_given = wrap-eq-ok _ _ hc;
        impersonate_given = hi;
        path_given = refl;
        query_given = refl;
        location_given = refl;
        transport_given = wrap-eq-ok _ _ ht;
        transport_config = tc;
        transport_config_given = wrap-eq-ok _ _ htc;
        tls_given = wrap-eq-ok _ _ htls;
        upgrader_given = wrap-eq-ok _ _ hup;
      })

  -- A client's request for the path `path` with the query `q`, sent to the gateway's proxy and
  -- escaped on the way, is forwarded to the host of the gateway's endpoint, at `path.Join` of the
  -- endpoint's path and the client's path with one leading slash. An ordinary request has the values
  -- of `q`, of which `dryRun` keeps the first one only; an upgrade request keeps the raw query, still
  -- escaped, so that its location has the values of the escaped query. The keys of `q` are distinct,
  -- `__dryRun` is none of them, and the raw query is one that parses as the escaped values.
  pub forward-client :
      (p : ProxyHandler M) (user : UserInfo) (path raw_query : String) (q : Values)
      (f : Forwarded net libraries)
      → libraries.parse_query raw_query ≡ escape_query_values q
      → IsMap q
      → lookup "__dryRun" q ≡ none
      → forward net libraries penetration global p (record {
        path = format_proxy_url p.parent_name path;
        raw_query = raw_query;
        user = user;
      })
        ≡ ok f
      → (url : Url) × (get_endpoint_url net p.cluster_gateway ≡ ok url)
        × (f.address ≡ url.host)
        × (f.path ≡ join_path libraries.clean url.path ("/" ⧺ trim_prefix path "/"))
        × ((j : String) → lookup j f.query ≡ delivered j q)
        × (libraries.parse_query f.location_query ≡ escape_query_values q)
  forward-client p user path raw_query q f parses distinct plain h =
      let r = forward-Forwards p _ f h in
      (
        r.url,
        r.url_given,
        (r.address_given).1,
        rw (← subresource_path-format_proxy_url p.parent_name path) r.path_given,
        λ j.
            ap (lookup j) (r.query_given ∙ ap unescape_query_values parses)
            ∙ unescape-escape j q distinct plain,
        ap libraries.parse_query r.location_given ∙ parses,
      )

  impersonation-cases :
      (p : ProxyHandler M) (request : Request) (imp : Option ImpersonationConfig)
      → impersonation net libraries penetration global p request ≡ ok imp
      → ((p.impersonate || penetration ≡ false) × (imp ≡ none))
        ⊎ ((p.impersonate || penetration ≡ true)
            × ((c : ImpersonationConfig) × (get_impersonation_config libraries.regexp
                    p.cluster_gateway.spec.proxy_config global request.user p.parent_name
                  ≡ ok c)
                × (imp ≡ some c)))
  unfolding impersonation
  impersonation-cases p request imp h = elim (Bool-cases (p.impersonate || penetration)) [
    | inl on ↦
        let (c, hc, h1) =
          >>=-eq-ok
            (get_impersonation_config libraries.regexp p.cluster_gateway.spec.proxy_config global
              request.user p.parent_name)
            _ (rw on at h) in
        inr (on, (c, hc, cc h1))
    | inr off ↦ inl (off, cc (rw off at h))
  ]

  -- Whom a request impersonates: the one that the first rule that fires gives, of the gateway's own
  -- rules followed by the global ones, or the user where none fires.
  abbrev pub Impersonates : ProxyHandler M → UserInfo → ImpersonationConfig → Type 0
  Impersonates p user c =
      ((rule : ClientIdentityExchangeRule) × Chosen libraries.regexp user p.parent_name
          (own_rules libraries.regexp user p.parent_name p.cluster_gateway.spec.proxy_config
            ++ global.rules)
          rule
        × (outcome libraries.regexp user p.parent_name rule rule.type ≡ ok c))
      ⊎ (All (Passes libraries.regexp user p.parent_name) (
            own_rules libraries.regexp user p.parent_name p.cluster_gateway.spec.proxy_config
            ++ global.rules)
          × (c ≡ own_identity user))

  get_impersonation_config-Impersonates :
      (p : ProxyHandler M) (user : UserInfo) (c : ImpersonationConfig)
      → get_impersonation_config libraries.regexp p.cluster_gateway.spec.proxy_config global user
          p.parent_name
        ≡ ok c
      → Impersonates p user c
  get_impersonation_config-Impersonates p user c h =
      elim (get_impersonation_config-first libraries.regexp user p.parent_name
        p.cluster_gateway.spec.proxy_config global) [
          | inl (rule, chosen, e) ↦ inl (rule, chosen, sym e ∙ h)
          | inr (passes, e) ↦ inr (passes, ok-injective (sym h ∙ e))
        ]

  -- A forwarded request uses the configuration of its gateway. Where neither the request nor the
  -- feature gate asks for it, nobody is impersonated; otherwise it is the one that the first rule
  -- that fires gives, of the gateway's own rules followed by the global ones, or the user where none
  -- fires. Both ways to the cluster are made of this configuration and this identity: the transport
  -- of an ordinary request, and the TLS configuration and the wrappers of an upgraded one.
  pub forward-impersonate :
      (p : ProxyHandler M) (request : Request) (f : Forwarded net libraries)
      → forward net libraries penetration global p request ≡ ok f
      → (new_config_from_cluster net p.cluster_gateway ≡ ok f.config)
        × (libraries.transport_for f.config f.impersonate ≡ ok f.transport)
        × ((tc : libraries.TransportConfig) × (libraries.transport_config f.config f.impersonate
              ≡ ok tc)
            × (libraries.tls_config_for tc ≡ ok f.upgrade_tls)
            × (libraries.http_wrappers_for tc ≡ ok f.upgrader))
        × (((p.impersonate || penetration ≡ false) × (f.impersonate ≡ none))
            ⊎ ((p.impersonate || penetration ≡ true)
                × ((c : ImpersonationConfig) × Impersonates p request.user c
                    × (f.impersonate ≡ some c))))
  forward-impersonate p request f h =
      let r = forward-Forwards p request f h in
      (
        r.config_given,
        r.transport_given,
        (r.transport_config, r.transport_config_given, r.tls_given, r.upgrader_given),
        elim (impersonation-cases p request f.impersonate r.impersonate_given) [
          | inl off ↦ inl off
          | inr (on, (c, hc, e)) ↦
              inr (on, (c, get_impersonation_config-Impersonates p request.user c hc, e))
        ],
      )
