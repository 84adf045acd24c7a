-- ===== src/Server/Webhook/Accepts.antt =====
-- Which webhook requests trigger a sync.
use mathlib.Core.List.{Memᴰ}
use mathlib.Core.List.Memᴰ
use quadsyncd.Base.{
  ◌≡◌, refl, sym, ap, ◌∙◌, ◌⊎◌, inl, inr, Bool, true, false, ◌&&◌, Bool-cases, some, Option-cases,
  List, [], ◌∷◌, ◌++◌, ok, Result-cases, ◌==◌, ◌/=◌, text_eq, arith,
}
use quadsyncd.Base.Text.{Text, str, has_prefix, cut_prefix}
use quadsyncd.Base.Membership.{contains-of_mem, mem_of_contains}
use quadsyncd.Config.{Config, RepoSpec, effective_repositories}
use quadsyncd.Server.Http.{Request, Writer, read_limited, accept}
use quadsyncd.Server.Webhook.{
  GitHubPushEvent, WebhookEnv, repo_url_matches_event, any_repo_matches, matches_configured_repo,
  allowed, is_event_type_allowed, is_ref_allowed, verify_signature, handle_webhook,
}

cut_prefix-append : (p t : Text) → cut_prefix (p ++ t) p ≡ some t
unfolding cut_prefix
cut_prefix-append [] [] = refl
cut_prefix-append [] (x ∷ t) = refl
cut_prefix-append (x ∷ p) t = ground (arith, cut_prefix-append p t)

append_of_cut : (s p t : Text) → cut_prefix s p ≡ some t → s ≡ p ++ t
unfolding cut_prefix
append_of_cut [] [] t h = cc
append_of_cut (x ∷ s) [] t h = cc
append_of_cut [] (y ∷ p) t h = cc
append_of_cut (x ∷ s) (y ∷ p) t h = ground (arith, append_of_cut s p t)

-- An empty list of what is allowed allows everything.
abbrev pub Allows : List Text → Text → Type 0
Allows xs x = (xs ≡ []) ⊎ Memᴰ x xs

allowed_of : (xs : List Text) (x : Text) → Allows xs x → allowed xs x ≡ true
allowed_of [] x h = refl
allowed_of (y ∷ ys) x h = elim h [ inl e ↦ cc | inr m ↦ contains-of_mem (y ∷ ys) x m ]

Allows-of_allowed : (xs : List Text) (x : Text) → allowed xs x ≡ true → Allows xs x
Allows-of_allowed [] x h = inl refl
Allows-of_allowed (y ∷ ys) x h = inr (mem_of_contains (y ∷ ys) x h)

-- A configured repository is the one that was pushed to, at the ref that was pushed.
abbrev pub IsTracked : GitHubPushEvent → List RepoSpec → Type 0
IsTracked event specs =
    (spec : RepoSpec) × Memᴰ spec specs
    × (repo_url_matches_event spec.url event ≡ true)
    × (spec.ref ≡ event.ref)

matches_of :
    (event : GitHubPushEvent) (specs : List RepoSpec)
    → IsTracked event specs
    → any_repo_matches specs event ≡ true
unfolding any_repo_matches
matches_of event [] (spec, m, u, r) = absurd (Memᴰ.not-nil m)
matches_of event (x ∷ specs) (spec, m, u, r) = elim (Memᴰ.cases_cons m) [
  | inl e ↦
      let u' : repo_url_matches_event x.url event ≡ true =
        ap (λ (y : RepoSpec). repo_url_matches_event y.url event) (sym e) ∙ u in
      let r' : x.ref ≡ event.ref = ap (λ (y : RepoSpec). y.ref) (sym e) ∙ r in ground arith
  | inr n ↦ ground (arith, matches_of event specs (spec, n, u, r))
]

IsTracked-of_matches :
    (event : GitHubPushEvent) (specs : List RepoSpec)
    → any_repo_matches specs event ≡ true
    → IsTracked event specs
unfolding any_repo_matches
IsTracked-of_matches event [] h = cc
IsTracked-of_matches event (x ∷ specs) h =
    elim (Bool-cases (repo_url_matches_event x.url event && x.ref == event.ref)) [
      | inl e ↦ (x, Memᴰ.head refl, ground arith, ground arith)
      | inr e ↦
          let (spec, m, u, r) = IsTracked-of_matches event specs (ground arith) in
          (spec, Memᴰ.tail m, u, r)
    ]

-- What `handleWebhook` asks of a request before it triggers a sync.
pub record Accepted (e : WebhookEnv) (cfg : Config) (secret : Text) (r : Request) : Type 0 where
  pub body : Text
  pub event : GitHubPushEvent
  pub is_post : r.method ≡ str "POST"
  pub is_json : has_prefix (r.header (str "Content-Type")) (str "application/json") ≡ true
  pub is_read : read_limited 1_048_576 r ≡ ok body
  pub is_signed : r.header (str "X-Hub-Signature-256") ≡ str "sha256=" ++ e.hmac_hex secret body
  pub allows_type : Allows cfg.serve.allowed_event_types (r.header (str "X-GitHub-Event"))
  pub is_parsed : e.parse_event body ≡ some event
  pub allows_ref : Allows cfg.serve.allowed_refs event.ref
  pub is_tracked : IsTracked event (effective_repositories cfg)

module _ (e : WebhookEnv) (cfg : Config) (secret : Text) where
  verify_of_signed :
      (body signature : Text)
      → signature ≡ str "sha256=" ++ e.hmac_hex secret body
      → verify_signature e cfg secret body signature ≡ true
  unfolding verify_signature
  verify_of_signed body signature h =
      let cut : cut_prefix signature (str "sha256=") ≡ some (e.hmac_hex secret body) =
        ap (λ t. cut_prefix t (str "sha256=")) h
        ∙ cut_prefix-append (str "sha256=") (e.hmac_hex secret body) in
      let ne : (signature == []) ≡ false = ground (arith, h) in rw (ne, cut) (ground arith)

  signed_of_verify :
      (body signature : Text)
      → verify_signature e cfg secret body signature ≡ true
      → signature ≡ str "sha256=" ++ e.hmac_hex secret body
  unfolding verify_signature
  signed_of_verify body signature h = elim (Option-cases (cut_prefix signature (str "sha256="))) [
    | inl n ↦ ground (arith, n)
    | inr (given, c) ↦
        let same : given ≡ e.hmac_hex secret body = ground (arith, c) in
        append_of_cut signature (str "sha256=") given c ∙ ap (λ t. str "sha256=" ++ t) same
  ]

  module _ (J : Type 0) {S : Type 0} (trigger_sync : S → S) (r : Request) (w : Writer) (s : S) where
    trigger_path :
        Accepted e cfg secret r
        → handle_webhook e cfg secret {J = J} trigger_sync r w s
          ≡ (accept w (str "Sync triggered"), trigger_sync s)
    unfolding handle_webhook is_event_type_allowed is_ref_allowed matches_configured_repo
    trigger_path a =
        let post : (r.method /= str "POST") ≡ false = ground (arith, a.is_post) in
        rw
          (
            post,
            a.is_json,
            a.is_read,
            verify_of_signed a.body (r.header (str "X-Hub-Signature-256")) a.is_signed,
            allowed_of cfg.serve.allowed_event_types (r.header (str "X-GitHub-Event"))
                a.allows_type,
            a.is_parsed,
            allowed_of cfg.serve.allowed_refs a.event.ref a.allows_ref,
            matches_of a.event (effective_repositories cfg) a.is_tracked,
          )
          refl

    pub stays_or_Accepted :
        ((handle_webhook e cfg secret {J = J} trigger_sync r w s).1 ≡ s) ⊎ Accepted e cfg secret r
    unfolding handle_webhook is_event_type_allowed is_ref_allowed matches_configured_repo
    stays_or_Accepted = elim (Bool-cases (r.method /= str "POST")) [
      | inl a ↦ inl (rw a refl)
      | inr a ↦ elim (Bool-cases json_type) [
        | inr b ↦ inl (rw (a, b) refl)
        | inl b ↦ elim (Result-cases (read_limited 1_048_576 r)) [
          | inr (u, c) ↦ inl (rw (a, b, c) refl)
          | inl (body, c) ↦ elim (Bool-cases (verify_signature e cfg secret body signature)) [
            | inr d ↦ inl (rw (a, b, c, d) refl)
            | inl d ↦ elim (Bool-cases (allowed cfg.serve.allowed_event_types event_type)) [
              | inr f ↦ inl (rw (a, b, c, d, f) refl)
              | inl f ↦ elim (Option-cases (e.parse_event body)) [
                | inl g ↦ inl (rw (a, b, c, d, f, g) refl)
                | inr (event, g) ↦ elim (Bool-cases (allowed cfg.serve.allowed_refs event.ref)) [
                  | inr k ↦ inl (rw (a, b, c, d, f, g, k) refl)
                  | inl k ↦
                      elim (Bool-cases (any_repo_matches (effective_repositories cfg) event)) [
                        | inr l ↦ inl (rw (a, b, c, d, f, g, k, l) refl)
                        | inl l ↦ inr (record {
                          body = body;
                          event = event;
                          is_post = ground arith;
                          is_json = b;
                          is_read = c;
                          is_signed = signed_of_verify body signature d;
                          allows_type =
                              Allows-of_allowed cfg.serve.allowed_event_types event_type f;
                          is_parsed = g;
                          allows_ref = Allows-of_allowed cfg.serve.allowed_refs event.ref k;
                          is_tracked = IsTracked-of_matches event (effective_repositories cfg) l;
                        })
                      ]
                ]
              ]
            ]
          ]
        ]
      ]
    ]
      where
        json_type : Bool
        json_type = has_prefix (r.header (str "Content-Type")) (str "application/json")

        signature : Text
        signature = r.header (str "X-Hub-Signature-256")

        event_type : Text
        event_type = r.header (str "X-GitHub-Event")

    -- A sync is triggered, with the answer 200, by exactly the requests that `Accepted` describes:
    -- a POST of JSON whose body has the signature of the secret, of an event type and a ref that
    -- are allowed, for a configured repository at its ref. Any other request triggers nothing.
    pub handle_webhook_iff :
        (Accepted e cfg secret r
          → handle_webhook e cfg secret {J = J} trigger_sync r w s
            ≡ (accept w (str "Sync triggered"), trigger_sync s))
        × (¬ Accepted e cfg secret r
            → (handle_webhook e cfg secret {J = J} trigger_sync r w s).1 ≡ s)
    handle_webhook_iff =
        (trigger_path, λ n. elim stays_or_Accepted [ inl same ↦ same | inr a ↦ absurd (n a) ])
