-- ===== src/Cache/Merged.antt =====
-- The URLs of a user and of the shared defaults, merged: the user's first, and no URL added twice.
use mathlib.Core.List.{append_assoc, append-nil}
use cafe_discovery.Base.{
  ℕ, Bool, true, false, ◌||◌, ◌≡◌, sym, ap, ◌∙◌, inl, inr, Option, List, [], ◌∷◌, ◌++◌, arith,
  any_of, any_of-append, Text, text_eq, text_eq_iff, ok, Bool-cases,
}
use cafe_discovery.Cache.{
  Entry, Command, default_user_id, list_urls_by_user_id, merge_urls,
  list_urls_by_user_id_or_default,
}

-- None of the added URLs stands before its place.
abbrev pub Fresh : List Text → List Text → Type 0
Fresh own [] = Unit {0}
Fresh own (u ∷ urls) = (any_of (text_eq u) own ≡ false) × Fresh (own ++ u ∷ []) urls

module _ (R : Type 0) (marshal : R → Option Text) (unmarshal : Text → Option R)
    (faults : Command → Text → Bool) where
  abbrev merge : List Text → List Text → List Text
  merge = merge_urls R marshal unmarshal faults

  same_member :
      (url u : Text) (xs : List Text)
      → text_eq url u ≡ true
      → any_of (text_eq u) xs ≡ true
      → any_of (text_eq url) xs ≡ true
  same_member url u xs m h = let same = (text_eq_iff url u).0 m in rw (same) h

  merged :
      (own urls : List Text) (url : Text)
      → (extra : List Text) × (merge own urls ≡ own ++ extra)
        × Fresh own extra
        × (any_of (text_eq url) (own ++ extra)
            ≡ (any_of (text_eq url) own || any_of (text_eq url) urls))
  unfolding merge_urls
  merged own [] url =
      ([], sym (append-nil own), tt, ground (arith, any_of-append (text_eq url) own []))
  merged own (u ∷ urls) url = elim (Bool-cases (any_of (text_eq u) own)) [
    | inl e ↦
        let (extra, same, fresh, member) = merged own urls url in
        (extra, rw (e, merge_urls) same, fresh, ground (arith, member, same_member url u own, e))
    | inr e ↦
        let (extra, same, fresh, member) = merged (own ++ u ∷ []) urls url in
        let assoc : (own ++ u ∷ []) ++ extra ≡ own ++ u ∷ extra = append_assoc own (u ∷ []) extra in
        (
          u ∷ extra,
          rw (e, merge_urls) (same ∙ assoc),
          (e, fresh),
          ground (
            arith,
            member,
            ap (any_of (text_eq url)) assoc,
            any_of-append (text_eq url) own (u ∷ []),
          ),
        )
  ]

  -- Where both lists of URLs are read, the answer is the user's URLs in their order and then
  -- further ones, none of which stands there before; a URL is in it exactly if it is one of the
  -- user's or one of the shared defaults.
  pub list_urls-merged :
      (now : ℕ) (user url : Text) (s : List Entry) (own shared : List Text)
      → list_urls_by_user_id R marshal unmarshal faults now user s ≡ ok own
      → list_urls_by_user_id R marshal unmarshal faults now default_user_id s ≡ ok shared
      → (extra : List Text) × (list_urls_by_user_id_or_default R marshal unmarshal faults now user s
          ≡ ok (own ++ extra))
        × Fresh own extra
        × (any_of (text_eq url) (own ++ extra)
            ≡ (any_of (text_eq url) own || any_of (text_eq url) shared))
  unfolding list_urls_by_user_id_or_default
  list_urls-merged now user url s own shared f g =
      let (extra, same, fresh, member) = merged own shared url in
      (extra, rw (f, g) (ap ok same), fresh, member)
