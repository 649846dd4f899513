-- ===== src/Auth/Images/Paging.antt =====
-- Bounds on a page, and that the pages together are the list.
use aocr.Prelude.{
  ℕ, zero, suc, take-append-drop, length-take-le, ◌+◌, ◌≤◌, ◌≡◌, refl, sym, ap, ◌∙◌, inl, inr, true,
  false, not, ◌||◌, ◌==◌, List, [], ◌∷◌, ◌++◌, Option, none, some, length, take, drop, ltb, arith,
  Bool-cases, append-nil,
}
use aocr.Prelude.Int.{ℤ, pos, negsuc}
use aocr.Text.{Str}
use aocr.Auth.Images.{
  limit_of, text_or_blank, clamp, clamp_limit, is_finite, parse_limit, parse_int, trim_overflow,
  listing, listing_body, page_of, listed, ListQuery, admin_list, Listing, ImageListPage,
  list_all_images, UserOut,
}

abbrev Bounded : ℕ → Type 0
Bounded n = (1 ≤ n) × (n ≤ 1000)

clamp-Bounded : (n : ℕ) → Bounded (clamp n)
clamp-Bounded n = (ground arith, ground arith)

clamp_limit-Bounded : (n : ℕ) → Bounded (clamp_limit n)
unfolding clamp_limit
clamp_limit-Bounded n = elim (Bool-cases (is_finite n)) [
  | inl e ↦ rw (e, clamp_limit) (clamp-Bounded n)
  | inr e ↦ rw (e, clamp_limit) (omega arith, omega arith)
]

limit_of-Bounded : (o : Option ℤ) → Bounded (limit_of o)
limit_of-Bounded none = unfold limit_of in (omega arith, omega arith)
limit_of-Bounded (some (negsuc n)) = unfold limit_of in (omega arith, omega arith)
limit_of-Bounded (some (pos n)) = elim (Bool-cases (n == 0 || not (is_finite n))) [
  | inl e ↦ unfold limit_of in rw e (omega arith, omega arith)
  | inr e ↦ unfold limit_of in rw e (clamp_limit-Bounded n)
]

-- Whatever the request asks for, a page has at least one row's room and at most a thousand.
parse_limit_bounds : (raw : Option Str) → (1 ≤ parse_limit raw) × (parse_limit raw ≤ 1000)
unfolding parse_limit
parse_limit_bounds raw = limit_of-Bounded (parse_int (text_or_blank raw))

not_longer : (k n : ℕ) → ltb n k ≡ false → k ≤ n
not_longer k n h = ground arith

module _ {ℓ} {Row : Type ℓ} where
  take-take : (n : ℕ) (xs : List Row) → take n (take (suc n) xs) ≡ take n xs
  take-take zero xs = refl
  take-take (suc n) [] = refl
  take-take (suc n) (x ∷ xs) = ap (λ ys. x ∷ ys) (take-take n xs)

  longer_take : (n : ℕ) (xs : List Row) → ltb n (length (take (suc n) xs)) ≡ ltb n (length xs)
  longer_take n [] = refl
  longer_take zero (x ∷ xs) = ground arith
  longer_take (suc n) (x ∷ xs) = ground (arith, longer_take n xs)

  take_whole : (n : ℕ) (xs : List Row) → ltb n (length xs) ≡ false → take (suc n) xs ≡ xs
  take_whole n [] h = refl
  take_whole zero (x ∷ xs) h = absurd (ground (arith, h))
  take_whole (suc n) (x ∷ xs) h = ap (λ ys. x ∷ ys) (take_whole n xs (ground (arith, h)))

  drop_nil : (n : ℕ) → ◌≡◌ {A = List Row} (drop n []) []
  drop_nil zero = refl
  drop_nil (suc n) = refl

  drop-drop : (m n : ℕ) (xs : List Row) → drop (m + n) xs ≡ drop n (drop m xs)
  drop-drop zero n xs = let e : 0 + n ≡ n = omega arith in ap (λ z. drop z xs) e
  drop-drop (suc m) n [] =
      let e : suc m + n ≡ suc (m + n) = omega arith in ap (λ z. drop z []) e ∙ sym (drop_nil n)
  drop-drop (suc m) n (x ∷ xs) =
      let e : suc m + n ≡ suc (m + n) = omega arith in
      ap (λ z. drop z (x ∷ xs)) e ∙ drop-drop m n xs

  full_take : (n : ℕ) (xs : List Row) → ltb n (length xs) ≡ true → length (take n xs) ≡ n
  full_take zero xs h = refl
  full_take (suc n) [] h = absurd (ground (arith, h))
  full_take (suc n) (x ∷ xs) h = ap suc (full_take n xs (ground (arith, h)))

  trim_full :
      (n : ℕ) (xs : List Row)
      → ltb n (length xs) ≡ true
      → trim_overflow (take (suc n) xs) n ≡ record { rows = take n xs; has_more = true }
  unfolding trim_overflow
  trim_full n xs h =
      rw (longer_take n xs ∙ h) (ap (λ ys. record { rows = ys; has_more = true }) (take-take n xs))

  trim_short :
      (n : ℕ) (xs : List Row)
      → ltb n (length xs) ≡ false
      → trim_overflow (take (suc n) xs) n ≡ record { rows = xs; has_more = false }
  unfolding trim_overflow
  trim_short n xs h =
      rw (longer_take n xs ∙ h)
        (ap (λ ys. record { rows = ys; has_more = false }) (take_whole n xs h))

  -- What stands behind a page.
  abbrev pub behind : Option ℕ → List Row → List Row
  behind none xs = []
  behind (some k) xs = drop k xs

  module _ (query : ListQuery → Option (List Row)) (all : List Row) where
    -- If the database answers with its window of the list of all images, an administrator's page
    -- has no more rows than the limit, and it and what stands behind its next offset are together
    -- the list from the offset on; without a next offset, nothing stands behind.
    pub list_all_images-listing :
        (user : Option UserOut) (limit offset : ℕ)
        → query (admin_list (limit + 1) offset) ≡ some (take (suc limit) (drop offset all))
        → (l : Listing Row) × (listing query user limit offset (list_all_images query limit offset)
            ≡ listed l)
          × (length l.images ≤ limit)
          × (l.images ++ behind l.next_offset all ≡ drop offset all)
    unfolding listing list_all_images page_of
    list_all_images-listing user limit offset h = elim (Bool-cases (ltb limit (length xs))) [
      | inl e ↦ (
        listing_body query user limit offset (record { rows = take limit xs; has_more = true }),
        answered (trim_full limit xs e),
        length-take-le limit xs,
        ap (λ k. take limit xs ++ drop (offset + k) all) (full_take limit xs e)
            ∙ ap (λ ys. take limit xs ++ ys) (drop-drop offset limit all)
            ∙ take-append-drop limit xs,
      )
      | inr e ↦ (
        listing_body query user limit offset (record { rows = xs; has_more = false }),
        answered (trim_short limit xs e),
        not_longer (length xs) limit e,
        append-nil xs,
      )
    ]
      where
        xs : List Row
        xs = drop offset all

        answered :
            {page : ImageListPage Row}
            → trim_overflow (take (suc limit) xs) limit ≡ page
            → listing query user limit offset (list_all_images query limit offset)
              ≡ listed (listing_body query user limit offset page)
        answered e =
            ap (λ o. listing query user limit offset (page_of query limit o)) h
            ∙ ap (λ p. listed (listing_body query user limit offset p)) e
