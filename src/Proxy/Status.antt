-- ===== src/Proxy/Status.antt =====
-- The status code with which a proxied request is recorded.
use mathlib.Core.List.{append-nil, append_assoc}
use cluster_gateway.Base.{
  ℕ, ◌≡◌, refl, sym, ap, ◌∙◌, Bool, true, false, none, some, List, [], ◌∷◌, ◌++◌, Error, Result, ok,
  err, panic,
}
use cluster_gateway.Api.{ProxyConfiguration}
use cluster_gateway.Transport.{Net}
use cluster_gateway.Proxy.{
  Request, ProxyHandler, Writer, new_proxy_response_writer, write_header, write_headers,
  UpstreamEvent, writes, fails, Upstream, handle_event, handle_events, Libraries, Forwarded,
  forward, finish, Served, respond, serve_http,
}

-- The last code of a list, or `code`.
abbrev pub last_or : ℕ → List ℕ → ℕ
last_or code [] = code
last_or code (c ∷ cs) = last_or c cs

-- The codes that an upstream writes itself.
abbrev pub written : List UpstreamEvent → List ℕ
written [] = []
written (writes code ∷ events) = code ∷ written events
written (fails e ∷ events) = written events

-- The codes that the client is given, those of the responder with them.
abbrev pub given : (Error → List ℕ) → List UpstreamEvent → List ℕ
given responder [] = []
given responder (writes code ∷ events) = code ∷ given responder events
given responder (fails e ∷ events) = responder e ++ given responder events

-- The writer keeps `code`, and the client has been given `codes`.
abbrev Keeps : ℕ → List ℕ → Writer → Type 0
Keeps code codes w = (w.status_code ≡ code) × (w.response_writer ≡ codes)

write_headers-Keeps :
    (codes : List ℕ) (w : Writer)
    → Keeps (last_or w.status_code codes) (w.response_writer ++ codes) (write_headers codes w)
unfolding write_headers write_header
write_headers-Keeps [] w = (refl, sym (append-nil w.response_writer))
write_headers-Keeps (code ∷ codes) w =
    let next : Writer = record {
      status_code = code;
      response_writer = w.response_writer ++ code ∷ [];
    } in
    let (last, all) = write_headers-Keeps codes next in
    (last, all ∙ append_assoc w.response_writer (code ∷ []) codes)

handle_events-Keeps :
    (responder : Error → List ℕ) (events : List UpstreamEvent) (w : Writer)
    → Keeps
        (last_or w.status_code (written events))
        (w.response_writer ++ given responder events)
        (handle_events responder events w)
unfolding handle_events handle_event write_header
handle_events-Keeps responder [] w = (refl, sym (append-nil w.response_writer))
handle_events-Keeps responder (writes code ∷ events) w =
    let next : Writer = record {
      status_code = code;
      response_writer = w.response_writer ++ code ∷ [];
    } in
    let (last, all) = handle_events-Keeps responder events next in
    (last, all ∙ append_assoc w.response_writer (code ∷ []) (given responder events))
handle_events-Keeps responder (fails e ∷ events) w =
    let next : Writer = record w { response_writer = w.response_writer ++ responder e } in
    let (last, all) = handle_events-Keeps responder events next in
    (last, all ∙ append_assoc w.response_writer (responder e) (given responder events))

module _ (net : Net) (libraries : Libraries net)
    (upstream : Forwarded net libraries → Upstream) where
  -- The code that is recorded, by what the preparation of the forwarding comes to.
  abbrev pub recorded : Result (Forwarded net libraries) → ℕ
  recorded (ok f) = last_or 200 (written (upstream f).events)
  recorded (err e) = last_or 200 (libraries.internal_error e)
  recorded panic = 200

module _ (net : Net) (libraries : Libraries net) (penetration : Bool) (global : ProxyConfiguration)
    (upstream : Forwarded net libraries → Upstream) {M : Type 0} where
  -- What becomes of a request, by what the preparation of its forwarding comes to: whether it
  -- panics, the codes that the client is given, and the code that is recorded.
  abbrev pub Outcome :
      ProxyHandler M
      → M
      → Result (Forwarded net libraries)
      → Served net libraries penetration global M
      → Type 0
  Outcome p m (ok f) served =
      (served.panicked ≡ (upstream f).panics)
      × (served.forwarded ≡ some f)
      × (served.writer.response_writer ≡ given p.responder (upstream f).events)
      × (served.finished ≡ p.finish_func (recorded net libraries upstream (ok f)) m)
  Outcome p m (err e) served =
      (served.panicked ≡ false)
      × (served.forwarded ≡ none)
      × (served.writer.response_writer ≡ libraries.internal_error e)
      × (served.finished ≡ p.finish_func (recorded net libraries upstream (err e)) m)
  Outcome p m panic served =
      (served.panicked ≡ true)
      × (served.forwarded ≡ none)
      × (served.writer.response_writer ≡ [])
      × (served.finished ≡ p.finish_func (recorded net libraries upstream panic) m)

  respond-Outcome :
      (p : ProxyHandler M) (m : M) (r : Result (Forwarded net libraries))
      → Outcome p m r (respond net libraries penetration global upstream p r m)
  unfolding respond finish new_proxy_response_writer
  respond-Outcome p m (ok f) =
      let (last, all) =
        handle_events-Keeps p.responder (upstream f).events new_proxy_response_writer in
      (refl, refl, all, ap (λ code. p.finish_func code m) last)
  respond-Outcome p m (err e) =
      let (last, all) =
        write_headers-Keeps (libraries.internal_error e) new_proxy_response_writer in
      (refl, refl, all, ap (λ code. p.finish_func code m) last)
  respond-Outcome p m panic = (refl, refl, refl, refl)

  finished-respond :
      (p : ProxyHandler M) (m : M) (r : Result (Forwarded net libraries))
      → (respond net libraries penetration global upstream p r m).finished
        ≡ p.finish_func (recorded net libraries upstream r) m
  finished-respond p m (ok f) = (respond-Outcome p m (ok f)).3
  finished-respond p m (err e) = (respond-Outcome p m (err e)).3
  finished-respond p m panic = (respond-Outcome p m panic).3

  -- The handler's deferred call records one code for every request, also where it panics: the last
  -- code that was written through the handler's own writer, or 200 where none was. For a forwarded
  -- request that leaves out the codes of the error responder, which the client is given in their
  -- place among the others: a request that only fails upstream is recorded as a success.
  pub serve_http-finished :
      (p : ProxyHandler M) (request : Request) (m : M)
      → Outcome p m
          (forward net libraries penetration global p request)
          (serve_http net libraries penetration global upstream p request m)
  unfolding serve_http
  serve_http-finished p request m =
      respond-Outcome p m (forward net libraries penetration global p request)

  pub finished-serve_http :
      (p : ProxyHandler M) (request : Request) (m : M)
      → (serve_http net libraries penetration global upstream p request m).finished
        ≡ p.finish_func
            (recorded net libraries upstream (forward net libraries penetration global p request))
            m
  unfolding serve_http
  finished-serve_http p request m =
      finished-respond p m (forward net libraries penetration global p request)
