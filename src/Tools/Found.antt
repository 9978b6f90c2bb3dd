-- ===== src/Tools/Found.antt =====
-- What the two loops of `search_contacts` of src/mcp.rs find: the first contacts, each href once.
use mathlib.Core.List.{flatten}
use carddav_mcp.Base.{
  take, take-all, take-append, ℕ, ◌+◌, ◌≤◌, ◌<◌, ◌≡◌, refl, sym, ap, ◌∙◌, arith, false, List, [],
  ◌∷◌, ◌++◌, append_assoc, append-nil, map, length, length-append, ok, leb, if◌then◌else◌,
  Bool-cases, inl, inr, leb→le, leb_false→lt, lt→leb_false,
}
use carddav_mcp.Base.Str.{Text}
use carddav_mcp.RateLimit.{Governor}
use carddav_mcp.Base.Steps.{after_step}
use carddav_mcp.Tools.{DavContact, Client, Service}
use carddav_mcp.Tools.Search.{
  contact_summary, Found, has_seen, add_match, add_matches, is_full, search_books,
}

-- A list that the next element makes full is cut off behind it.
take-full :
    {A : Type 0} (n : ℕ) (xs : List A) (x : A) (ys : List A)
    → n ≡ length xs + 1
    → take n (xs ++ x ∷ ys) ≡ xs ++ x ∷ []
take-full n xs x ys h =
    ap (λ k. take k (xs ++ x ∷ ys)) (omega (arith, h, length-append xs (x ∷ [])))
    ∙ ap (take (length (xs ++ x ∷ []))) (sym (append_assoc xs (x ∷ []) ys))
    ∙ take-append (xs ++ x ∷ []) ys

-- The contacts whose href was not seen before, neither in the set nor earlier in the list.
unfoldable pub unseen : List Text → List DavContact → List DavContact
unseen seen [] = []
unseen seen (contact ∷ contacts) =
    let skipped = unseen seen contacts in
    let rest = unseen (seen ++ contact.href ∷ []) contacts in
    if has_seen seen contact.href then skipped else contact ∷ rest

-- The loop over the matches, against that list.
add_matches-take :
    (limit : ℕ) (found : Found) (matches : List DavContact)
    → length found.contacts < limit
    → (add_matches limit found matches).contacts
      ≡ take limit (found.contacts ++ map contact_summary (unseen found.seen matches))
unfolding add_matches unseen add_match
add_matches-take limit found [] lt =
    sym (ap (take limit) (append-nil found.contacts) ∙ take-all limit found.contacts (omega arith))
add_matches-take limit found (contact ∷ matches) lt =
    elim (Bool-cases (has_seen found.seen contact.href)) [
      | inl old ↦
          rw (old, lt→leb_false limit (length found.contacts) lt)
            (add_matches-take limit found matches lt)
      | inr new ↦
          elim (Bool-cases (leb limit (length (found.contacts ++ contact_summary contact ∷ [])))) [
            | inl full ↦
                rw (new, full)
                  (sym (
                    take-full limit found.contacts (contact_summary contact) _ (
                      omega (
                        arith,
                        leb→le limit _ full,
                        length-append found.contacts (contact_summary contact ∷ []),
                      ))))
            | inr room ↦
                rw (new, room)
                  (add_matches-take limit
                      (record {
                        seen = found.seen ++ contact.href ∷ [];
                        contacts = found.contacts ++ contact_summary contact ∷ [];
                      })
                      matches (leb_false→lt limit _ room)
                    ∙ ap (take limit)
                        (append_assoc found.contacts (contact_summary contact ∷ []) _))
          ]
    ]

-- Looping over two lists one after the other, with the test in between, is looping over both.
add_matches-append :
    (limit : ℕ) (found : Found) (matches rest : List DavContact)
    → is_full limit found ≡ false
    → add_matches limit found (matches ++ rest) ≡ (
        if is_full limit (add_matches limit found matches)
        then add_matches limit found matches
        else add_matches limit (add_matches limit found matches) rest)
unfolding add_matches
add_matches-append limit found [] rest room = rw room refl
add_matches-append limit found (contact ∷ matches) rest room =
    elim (Bool-cases (is_full limit (add_match found contact))) [
      | inl full ↦ rw full (rw full refl)
      | inr still ↦ rw still (add_matches-append limit (add_match found contact) matches rest still)
    ]

module _ (g : Governor) (c : Client) where
  open c use {World}

  -- What the client answers when it is asked for one address book after the other.
  pub data Answers (token query : Text) : World → List Text → List (List DavContact) → Type 0 where
    done : (w : World) → Answers token query w [] []
    next :
        (w w' : World) (href : Text) (hrefs : List Text) (matches : List DavContact)
        (all : List (List DavContact))
        → c.search_contacts token href query w ≡ (w', ok matches)
        → Answers token query w' hrefs all
        → Answers token query w (href ∷ hrefs) (matches ∷ all)

  search_books-add_matches :
      (token query : Text) (limit : ℕ) (found : Found) (hrefs : List Text)
      (all : List (List DavContact)) (s : Service g World) (w : World)
      → s.world ≡ w
      → Answers token query w hrefs all
      → is_full limit found ≡ false
      → (search_books g c token query limit found hrefs s).1
        ≡ ok (add_matches limit found (flatten all))
  unfolding search_books after_step flatten
  search_books-add_matches token query limit found [] all s w e (done w1) room =
      unfold add_matches in refl
  search_books-add_matches token query limit found (href ∷ hrefs) all s w e
        (next w1 w' h hs matches rest answer answers) room =
      let found' = add_matches limit found matches in
      rw (e, answer, add_matches-append limit found matches (flatten rest) room)
        (elim (Bool-cases (is_full limit found')) [
          | inl full ↦ rw full refl
          | inr still ↦ rw still (
              search_books-add_matches token query limit found' hrefs rest (record s { world = w' })
                w' refl answers still)
        ])

  -- The loops of `search_contacts` over address books and matches, when the client answers for
  -- each book and the limit is at least 1, return without an error the summaries of the first
  -- contacts up to the limit, in the order of the books and their matches, of each href only
  -- the first.
  pub search_books-take :
      (token query : Text) (limit : ℕ) (hrefs : List Text) (all : List (List DavContact))
      (s : Service g World)
      → 1 ≤ limit
      → Answers token query s.world hrefs all
      → (found : Found) × ((search_books g c token query limit
            (record { seen = []; contacts = [] })
            hrefs
            s).1
          ≡ ok found)
        × (found.contacts ≡ take limit (map contact_summary (unseen [] (flatten all))))
  search_books-take token query limit hrefs all s some_room answers =
      let none_found : Found = record { seen = []; contacts = [] } in
      (
        add_matches limit none_found (flatten all),
        search_books-add_matches token query limit none_found hrefs all s s.world refl answers
            (lt→leb_false limit 0 (omega arith)),
        add_matches-take limit none_found (flatten all) (omega arith),
      )
