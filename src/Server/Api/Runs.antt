-- ===== src/Server/Api/Runs.antt =====
-- A client that pages through `/api/runs` sees every run.
use mathlib.Core.Option
use quadsyncd.Base.{
  ℕ, zero, suc, ◌+◌, ◌≤◌, ◌<◌, ◌≡◌, refl, sym, ap, ◌∙◌, Bool-cases, inl, inr, Option, none, some,
  Option-cases, List, [], ◌∷◌, ◌++◌, map, length, ok, ◌==◌, if◌then◌else◌, text_eq, arith,
}
use quadsyncd.Base.Text.{Text, str}
use quadsyncd.Base.Decimal.{atoi, int_limit}
use quadsyncd.Config.{Config}
use quadsyncd.Os.{Env}
use quadsyncd.Runstore.{RunMeta}
use quadsyncd.Runstore.Store.{Tree, Codec, list}
use quadsyncd.Server.Paging.{
  paginate_slice, decode_cursor, follow_cursors, follow_cursors_complete, length-paginate_slice,
}
use quadsyncd.Server.Http.{Request, Writer, Body, json, write_json}
use quadsyncd.Server.Dto.{
  RunResponse, RunsListResponse, run_response_from_meta, runs_list_response_from_metas,
}
use quadsyncd.Server.Api.{Json, ApiEnv, runs_list, limit_of, handle_runs}

limit_of-bounds :
    (default bound : ℕ) (given : Text)
    → 0 < default
    → 0 < bound
    → (0 < limit_of default bound given) × (limit_of default bound given ≤ bound)
unfolding limit_of
limit_of-bounds default bound given d b = elim (Option-cases (atoi given)) [
  | inl e ↦ ground (arith, e)
  | inr (i, e) ↦ ground (arith, e)
]

map-append : {A B : Type 0} (f : A → B) (xs ys : List A) → map f (xs ++ ys) ≡ map f xs ++ map f ys
map-append f [] ys = refl
map-append f (x ∷ xs) ys = ap (◌∷◌ (f x)) (map-append f xs ys)

map-both :
    {A B : Type 0} (f : A → B) (xs : List A) (o : Option (List A))
    → Option.map (λ more. map f xs ++ more) (Option.map (map f) o)
      ≡ Option.map (map f) (Option.map (λ more. xs ++ more) o)
map-both f xs none = refl
map-both f xs (some ys) = ap some (sym (map-append f xs ys))

length-map : {A B : Type 0} (f : A → B) (xs : List A) → length (map f xs) ≡ length xs
length-map f [] = refl
length-map f (x ∷ xs) = ap suc (length-map f xs)

-- A request for a page, by its limit and its cursor.
abbrev pub asks : Text → Text → Request → Request
asks limit cursor r = record r {
  query =
      λ name. if name == str "limit" then limit else if name == str "cursor" then cursor else [];
}

module _ (e : Env) (h : Codec) (base_dir : Text) (a : ApiEnv h.LogRecord) (cfg : Config) where
  -- The runs of the answer and its cursor.
  abbrev pub page_of : Body (Json h.LogRecord) → Option RunsListResponse
  page_of (json (runs_list page)) = some page
  page_of other = none

  -- A page, and what is behind it where it has a cursor.
  abbrev pub go_on :
      Option RunsListResponse → (Text → Option (List RunResponse)) → Option (List RunResponse)
  go_on none behind = none
  go_on (some page) behind =
      if page.next_cursor == []
      then some page.items
      else Option.map (λ more. page.items ++ more) (behind page.next_cursor)

  -- What a client collects that asks for the first page and follows the cursors.
  unfoldable pub collect_runs :
      ℕ → Text → Text → Request → Writer → Tree → Option (List RunResponse)
  collect_runs zero limit cursor r w t = none
  collect_runs (suc fuel) limit cursor r w t =
      go_on (page_of (handle_runs e h base_dir a cfg (asks limit cursor r) w t).body)
        (λ next. collect_runs fuel limit next r w t)

  module _ (limit : Text) (r : Request) (w : Writer) (t : Tree) (runs : List RunMeta)
      (listed : list e h base_dir t ≡ ok runs) where
    page_at :
        (cursor : Text)
        → let page = paginate_slice runs (decode_cursor cursor) (limit_of 20 100 limit) in
          page_of (handle_runs e h base_dir a cfg (asks limit cursor r) w t).body
          ≡ some (runs_list_response_from_metas a.format_time page.0 page.1)
    unfolding handle_runs write_json text_eq
    page_at cursor = rw (handle_runs, listed) refl

    items_of :
        (format : ℕ → Text) (metas : List RunMeta) (next : Text) (page : RunsListResponse)
        → ◌≡◌ {A = Option RunsListResponse}
            (some (runs_list_response_from_metas format metas next))
            (some page)
        → map (run_response_from_meta format) metas ≡ page.items
    unfolding runs_list_response_from_metas
    items_of format metas next page same = cc

    collect-follow :
        (fuel : ℕ) (cursor : Text)
        → collect_runs fuel limit cursor r w t
          ≡ Option.map
              (map (run_response_from_meta a.format_time))
              (follow_cursors fuel runs (limit_of 20 100 limit) cursor)
    unfolding collect_runs follow_cursors runs_list_response_from_metas
    collect-follow zero cursor = refl
    collect-follow (suc fuel) cursor =
        let page = paginate_slice runs (decode_cursor cursor) (limit_of 20 100 limit) in
        ap (λ p. go_on p (λ next. collect_runs fuel limit next r w t)) (page_at cursor)
        ∙ elim (Bool-cases (page.1 == [])) [
          | inl last ↦ rw last refl
          | inr more ↦
              rw (more, collect-follow fuel page.1)
                (map-both (run_response_from_meta a.format_time) page.0
                  (follow_cursors fuel runs (limit_of 20 100 limit) page.1))
        ]

    -- A client that asks `/api/runs` for its first page and follows the cursors gets every run of
    -- the store once and in the order of the store, whatever limit it asks for, within as many
    -- requests as there are runs, and one; and no answer has more than 100 runs.
    pub collect_runs_complete :
        length runs < int_limit
        → (collect_runs (length runs + 1) limit [] r w t
            ≡ some (map (run_response_from_meta a.format_time) runs))
          × ((cursor : Text) (page : RunsListResponse)
              → page_of (handle_runs e h base_dir a cfg (asks limit cursor r) w t).body ≡ some page
              → length page.items ≤ 100)
    collect_runs_complete small = (
      collect-follow (length runs + 1) []
          ∙ ap (Option.map (map (run_response_from_meta a.format_time))) (
              follow_cursors_complete runs (limit_of 20 100 limit)
                (limit_of-bounds 20 100 limit (omega arith) (omega arith)).0 small),
      λ cursor page shown.
          (let found = paginate_slice runs (decode_cursor cursor) (limit_of 20 100 limit) in
            let same : map (run_response_from_meta a.format_time) found.0 ≡ page.items =
              items_of a.format_time found.0 found.1 page (sym (page_at cursor) ∙ shown) in
            let short : length found.0 ≤ limit_of 20 100 limit =
              length-paginate_slice runs (decode_cursor cursor) (limit_of 20 100 limit) in
            let bound = limit_of-bounds 20 100 limit (omega arith) (omega arith) in
            omega (
              arith,
              ap length same,
              length-map (run_response_from_meta a.format_time) found.0,
              short,
              bound.1,
            )),
    )
