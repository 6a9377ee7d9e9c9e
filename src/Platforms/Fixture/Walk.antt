-- ===== src/Platforms/Fixture/Walk.antt =====
-- Reading every page of a post from the fixture client of src/platforms/fixture-provider.ts.
use social_comments_service.Base.{
  Bool-cases, List, Option, [], ap, arith, drop, inl, inr, length, length-drop, length-take, ltb,
  ltb-le, ltb→lt, min, none, or_else, refl, some, suc, sym, take, take-append-drop, take_all, true,
  zero, ℕ, ◌++◌, ◌+◌, ◌<◌, ◌∙◌, ◌∷◌, ◌≡◌, ◌≤◌,
}
use social_comments_service.Platforms.Adaptive.{
  ClientListQuery, ExternalCommentRecord, ProviderPage,
}
use social_comments_service.Platforms.Fixture.{
  Base64, FixtureProviderClient, decode_offset, encode_offset, fixture_list_comments, fixture_page,
  record_connection, string_of,
}
use social_comments_service.Platforms.Fixture.Decimal.{parse_offset-string_of}
use social_comments_service.Repositories.TenantScoped.{lookup}
use social_comments_service.Shared.Exec.{err, ok, ◌>>=◌}
use social_comments_service.Shared.Text.{Text, is_non_empty_string}

-- What the client holds for the post of a query.
abbrev pub listed_comments : ClientListQuery → FixtureProviderClient → List ExternalCommentRecord
listed_comments query s = or_else (lookup query.external_post_id s.comments_by_post) []

abbrev pub after_page :
    List ExternalCommentRecord
    → Option (List ExternalCommentRecord)
    → Option (List ExternalCommentRecord)
after_page items none = none
after_page items (some rest) = some (items ++ rest)

-- The comments on the pages from a query's cursor on, by at most so many calls.
unfoldable pub read_pages :
    Base64 → ℕ → ClientListQuery → FixtureProviderClient → Option (List ExternalCommentRecord)
read_pages base64 zero query s = none
read_pages base64 (suc f) query s =
    let (outcome, t) = fixture_list_comments base64 query s in
    let later =
      (λ (cursor : Text). read_pages base64 f (record query { cursor = some cursor }) t) in
    elim outcome [
      | err e ↦ none
      | ok page ↦ elim page.next_cursor [
        | none ↦ some page.items
        | some cursor ↦ after_page page.items (later cursor)
      ]
    ]

module _ (base64 : Base64) (f : ℕ) (query : ClientListQuery) (page : ProviderPage)
    (s t : FixtureProviderClient) (e : fixture_list_comments base64 query s ≡ (ok page, t)) where
  stops : page.next_cursor ≡ none → read_pages base64 (suc f) query s ≡ some page.items
  unfolding read_pages
  stops n = rw (read_pages, ap (λ r. r.0) e, n) refl

  goes_on :
      (cursor : Text)
      → page.next_cursor ≡ some cursor
      → read_pages base64 (suc f) query s
        ≡ after_page page.items (read_pages base64 f (record query { cursor = some cursor }) t)
  unfolding read_pages
  goes_on cursor n = rw (read_pages, ap (λ r. r.0) e, n, ap (λ r. r.1) e) refl

module _ {A : Type 0} where
  drop_nil : (n : ℕ) → drop {A = A} n [] ≡ []
  drop_nil zero = refl
  drop_nil (suc n) = refl

  drop_add : (n m : ℕ) (xs : List A) → drop (n + m) xs ≡ drop m (drop n xs)
  drop_add zero m xs = ap (λ k. drop k xs) (omega arith)
  drop_add (suc n) m [] = let e : suc n + m ≡ suc (n + m) = omega arith in rw e (sym (drop_nil m))
  drop_add (suc n) m (x ∷ xs) =
      let e : suc n + m ≡ suc (n + m) = omega arith in rw e (drop_add n m xs)

  -- A page that leaves something is full, and the rest follows it.
  full_page :
      (n size : ℕ) (xs : List A)
      → n + length (take size (drop n xs)) < length xs
      → take size (drop n xs) ++ drop (n + length (take size (drop n xs))) xs ≡ drop n xs
  full_page n size xs h =
      let full : length (take size (drop n xs)) ≡ size =
        omega (arith, length-take size (drop n xs), length-drop n xs) in
      rw full (rw (drop_add n size xs) (take-append-drop size (drop n xs)))

  -- A page that leaves nothing is all that was left.
  last_page :
      (n size : ℕ) (xs : List A)
      → 1 ≤ size
      → length xs ≤ n + length (take size (drop n xs))
      → take size (drop n xs) ≡ drop n xs
  last_page n size xs p h =
      take_all size (drop n xs) (omega (arith, length-take size (drop n xs), length-drop n xs))

module _ (base64 : Base64)
    (restored : (n : ℕ)
      → base64.from_base64url (base64.to_base64url (string_of n)) ≡ string_of n) where
  decode_offset-encode_offset : (n : ℕ) → decode_offset base64 (some (encode_offset base64 n)) ≡ n
  decode_offset-encode_offset n = rw (restored n) (parse_offset-string_of n)

  -- A call with a credential reads its page, and the catalogue and the cap stay.
  listed :
      (query : ClientListQuery) (s : FixtureProviderClient)
      → is_non_empty_string query.connection.credential_reference ≡ true
      → fixture_list_comments base64 query s ≡ (
        ok (
            fixture_page base64
              (or_else (lookup query.external_post_id s.comments_by_post) [])
              (decode_offset base64 query.cursor)
              (min query.limit s.max_page_size)),
        record s { connections = query.connection ∷ s.connections },
      )
  unfolding fixture_list_comments record_connection ◌>>=◌ fixture_page
  listed query s c = rw c refl

  read_pages-from :
      (f n : ℕ) (query : ClientListQuery) (s : FixtureProviderClient)
      → is_non_empty_string query.connection.credential_reference ≡ true
      → 1 ≤ query.limit
      → 1 ≤ s.max_page_size
      → decode_offset base64 query.cursor ≡ n
      → n ≤ length (listed_comments query s)
      → length (listed_comments query s) < n + f
      → read_pages base64 f query s ≡ some (drop n (listed_comments query s))
  unfolding read_pages fixture_page
  read_pages-from zero n query s c l m d k h = absurd (omega arith)
  read_pages-from (suc f) n query s c l m d k h =
      let xs = listed_comments query s in
      let size = min query.limit s.max_page_size in
      let next = n + length (take size (drop n xs)) in
      let page = fixture_page base64 xs n size in
      let t = record s { connections = query.connection ∷ s.connections } in
      let called : fixture_list_comments base64 query s ≡ (ok page, t) =
        rw (listed query s c, d) refl in
      elim (Bool-cases (ltb next (length xs))) [
        | inl x ↦
            let more : next < length xs = ltb→lt next (length xs) x in
            goes_on base64 f query page s t called (encode_offset base64 next) (rw x refl)
            ∙ ap (after_page page.items) (
                read_pages-from f next (record query { cursor = some (encode_offset base64 next) })
                  t c l m (decode_offset-encode_offset next) (omega (arith, more))
                  (omega (arith, more, length-take size (drop n xs), length-drop n xs)))
            ∙ ap some (full_page n size xs more)
        | inr x ↦
            stops base64 f query page s t called (rw x refl)
            ∙ ap some (last_page n size xs (omega arith) (ltb-le next (length xs) x))
      ]

  -- Following the cursors from the first page reads all the comments of the post, once each and in
  -- their order, within one call more than there are comments.
  pub read_pages-listed_comments :
      (query : ClientListQuery) (s : FixtureProviderClient)
      → is_non_empty_string query.connection.credential_reference ≡ true
      → 1 ≤ query.limit
      → 1 ≤ s.max_page_size
      → query.cursor ≡ none
      → read_pages base64 (suc (length (listed_comments query s))) query s
        ≡ some (listed_comments query s)
  read_pages-listed_comments query s c l m e =
      read_pages-from (suc (length (listed_comments query s))) 0 query s c l m (rw e refl)
        (omega arith) (omega arith)
