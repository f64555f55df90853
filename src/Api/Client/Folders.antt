-- ===== src/Api/Client/Folders.antt =====
-- A folder is found again once it is there.
use mathlib.Core.Path.{subst}
use mathlib.Core.Option.{none-ne-some}
use grafana_operator.Common.{
  String, ◌⧺◌, eq_iff, ◌≡◌, ◌≢◌, ◌⊎◌, refl, sym, ap, ◌∙◌, true, Option, none, some, List, [], ◌∷◌,
  ℤ, pos, Bool-cases, Option-cases, inl, inr, arith,
}
use grafana_operator.Common.Run.{Result, ok, err, Result-cases}
use grafana_operator.Api.Types.{GrafanaFolderResponse, new_folder_response, Reply, Http}
use grafana_operator.Api.Client.{
  Credentials, find_folder, folder_title, is_status, no_body, folder_body, expect_available, submit,
  get_all_folders, create_folder, create_unless_found, or_created, create_or_update_folder,
}

-- The folder is one of the list.
abbrev pub IsFolder : GrafanaFolderResponse → List GrafanaFolderResponse → Type 0
IsFolder f [] = ⊥
IsFolder f (g ∷ l) = (f ≡ g) ⊎ IsFolder f l

-- No two folders have one title.
abbrev pub HaveDistinctTitles : List GrafanaFolderResponse → Type 0
HaveDistinctTitles [] = Unit
HaveDistinctTitles (g ∷ l) = (find_folder g.title l ≡ none) × HaveDistinctTitles l

find_folder-IsFolder :
    (f : GrafanaFolderResponse) (l : List GrafanaFolderResponse)
    → IsFolder f l
    → HaveDistinctTitles l
    → find_folder f.title l ≡ some f
unfolding find_folder
find_folder-IsFolder f [] h d = absurd h
find_folder-IsFolder f (g ∷ l) (inl e) d =
    let title : f.title ≡ g.title = ap (λ t. t.title) e in
    rw ((eq_iff g.title f.title).1 (sym title)) (ap some (sym e))
find_folder-IsFolder f (g ∷ l) (inr h) d =
    ground (arith, find_folder-IsFolder f l h d.1, eq_iff g.title f.title, d.0)

find_folder-title :
    (name : String) (l : List GrafanaFolderResponse) (f : GrafanaFolderResponse)
    → find_folder name l ≡ some f
    → f.title ≡ name
unfolding find_folder
find_folder-title name [] f h = absurd cc
find_folder-title name (g ∷ l) f h = ground (arith, eq_iff g.title name, find_folder-title name l f)

-- What a response without an error has come from.
expect_available-inversion :
    (http : Http) (doing : String) (response unavailable f : GrafanaFolderResponse)
    (unmarshal : String → GrafanaFolderResponse × Option http.Error)
    (resp : Result http.Error (Reply http.Error))
    → expect_available http doing response unavailable unmarshal resp ≡ (f, none)
    → (f ≡ unavailable)
      ⊎ ((reply : Reply http.Error) × (text : String) × (resp ≡ ok reply)
          × (is_status reply.status_code 200 ≡ true)
          × (reply.body ≡ ok text)
          × (unmarshal text ≡ (f, none)))
expect_available-inversion http doing response unavailable f unmarshal (err e) h = absurd cc
expect_available-inversion http doing response unavailable f unmarshal (ok reply) h =
    elim (Bool-cases (is_status reply.status_code 503)) [
      | inl p ↦ inl (ap (λ t. t.0) (sym (rw p at h)))
      | inr p ↦ elim (Bool-cases (is_status reply.status_code 200)) [
        | inr q ↦ absurd (none-ne-some _ (ap (λ t. t.1) (sym (rw (p, q) at h))))
        | inl q ↦ elim (Result-cases reply.body) [
          | inr (e, b) ↦ absurd (none-ne-some _ (ap (λ t. t.1) (sym (rw (p, q, b) at h))))
          | inl (text, b) ↦ inr (reply, text, refl, q, b, rw (p, q, b) at h)
        ]
      ]
    ]

module _ (http : Http) (r : Credentials) where
  -- In the state `n` Grafana answers the request for its folders with 200 and the list `l`.
  abbrev pub Lists : http.Network → List GrafanaFolderResponse → Type 0
  Lists n l =
      (text : String) × (submit http r "GET" (r.url ⧺ "/api/folders") (no_body http) n
        ≡ (n, ok record { status_code = pos 200; body = ok text }))
      × (http.unmarshal_folders text ≡ (l, none))

  -- If Grafana answered the request to create a folder with 200 and the folder `f`, and was then in the
  -- state `n'`, then `f` has the title that was asked for and is one of `l`.
  abbrev pub IsListedIfCreated :
      (name : String)
      → (n n' : http.Network) → GrafanaFolderResponse
      → List GrafanaFolderResponse
      → Type 0
  IsListedIfCreated name n n' f l =
      (text : String) (resp : Reply http.Error)
      → submit http r "POST" (r.url ⧺ "/api/folders") (folder_body http name) n ≡ (n', ok resp)
      → is_status resp.status_code 200 ≡ true
      → resp.body ≡ ok text
      → http.unmarshal_folder text new_folder_response ≡ (f, none)
      → (f.title ≡ folder_title name) × IsFolder f l

  get_all_folders_lem :
      (n : http.Network) (l : List GrafanaFolderResponse)
      → Lists n l
      → get_all_folders http r n ≡ (n, (l, none))
  unfolding get_all_folders
  get_all_folders_lem n l (text, e, d) = rw (e, d) refl

  create_folder_lem :
      (name : String) (n n' : http.Network) (f : GrafanaFolderResponse) (id : ℤ)
      (l : List GrafanaFolderResponse)
      → IsListedIfCreated name n n' f l
      → create_folder http r name n ≡ (n', (f, none))
      → f.id ≡ some id
      → (f.title ≡ folder_title name) × IsFolder f l
  unfolding create_folder
  create_folder_lem name n n' f id l created e h =
      let answer = submit http r "POST" (r.url ⧺ "/api/folders") (folder_body http name) n in
      let moved : answer.0 ≡ n' = ap (λ t. t.0) e in
      elim (expect_available-inversion http "creating folder" new_folder_response
        record { id = none; title = ""; uid = "" } f
        (λ content. http.unmarshal_folder content new_folder_response) answer.1 (ap (λ t. t.1) e)) [
          | inl p ↦ absurd (none-ne-some id (ap (λ t. t.id) (sym p) ∙ h))
          | inr (reply, text, p, q, b, u) ↦ created text reply (λ i. (moved i, p i)) q b u
        ]

  create_or_update_folder_lem :
      (name : String) (n : http.Network) (l : List GrafanaFolderResponse)
      → Lists n l
      → create_or_update_folder http r name n ≡ or_created http r name n (find_folder name l)
  unfolding create_or_update_folder
  create_or_update_folder_lem name n l h =
      ap (λ t. create_unless_found http r name t.0 t.1) (get_all_folders_lem n l h)

  -- A call of CreateOrUpdateFolder, for a name that is not empty, has returned a folder that has an id and
  -- no error. Grafana answers the request for its folders with 200 both in the state before the call and
  -- in the one after it, and no two folders of the list after it have one title. If the call created the
  -- folder, then Grafana answered with the title that was asked for, and the list after the call has the
  -- folder, at whatever place. Then the folder has the name, and the same call again returns the same
  -- folder and changes nothing.
  pub create_or_update_folder-settles :
      (name : String) (n n' : http.Network) (f : GrafanaFolderResponse) (id : ℤ)
      (before after : List GrafanaFolderResponse)
      → name ≢ ""
      → Lists n before
      → Lists n' after
      → HaveDistinctTitles after
      → IsListedIfCreated name n n' f after
      → create_or_update_folder http r name n ≡ (n', (f, none))
      → f.id ≡ some id
      → (f.title ≡ name) × (create_or_update_folder http r name n' ≡ (n', (f, none)))
  create_or_update_folder-settles name n n' f id before after ne lists lists' distinct created e h =
      elim (Option-cases (find_folder name before)) [
        | inr (g, p) ↦
            let e' : (n, (g, none)) ≡ (n', (f, none)) =
              rw (create_or_update_folder_lem name n before lists, p) at e in
            let title : g.title ≡ name = find_folder-title name before g p in
            (
              ap (λ t. t.1.0.title) (sym e') ∙ title,
              subst (λ t. create_or_update_folder http r name t.0 ≡ t) e'
                  (rw (create_or_update_folder_lem name n before lists, p) refl),
            )
        | inl p ↦
            let e' : create_folder http r name n ≡ (n', (f, none)) =
              rw (create_or_update_folder_lem name n before lists, p) at e in
            let (t, listed) = create_folder_lem name n n' f id after created e' h in
            let title : f.title ≡ name = t ∙ ground (arith, eq_iff name "", ne) in
            let found : find_folder name after ≡ some f =
              subst (λ x. find_folder x after ≡ some f) title
                (find_folder-IsFolder f after listed distinct) in
            (title, rw (create_or_update_folder_lem name n' after lists', found) refl)
      ]
