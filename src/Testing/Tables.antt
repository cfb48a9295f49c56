-- ===== src/Testing/Tables.antt =====
-- The calls of gorm over tables that are lists of rows.
use vpn_backend.Base.{
  Bool, true, false, Option, none, some, List, [], ◌∷◌, ◌≡◌, refl, sym, ap, ◌∙◌, inl, inr,
  Bool-cases, keep, is_some, take, drop, length, All, if◌then◌else◌,
}
use vpn_backend.Base.Int.{pos, pos_part, sum_ℤ}
use vpn_backend.Errors.{Error, sentinel, message, record_not_found, is_error}
use vpn_backend.Action.{Result, ok, err}
use vpn_backend.Models.{Uuid}
use vpn_backend.Database.{Table}
use vpn_backend.Database.View.{View, Rows, put, remove, change_rows}
use vpn_backend.Database.Laws.{Selects, LawfulTable}
use vpn_backend.Database.Reliable.{ReliableTable}
use vpn_backend.Testing.Rows.{
  look, look_keyed, drop_id, look-drop_id, visible, amend, look-amend, keep-Selects,
}

abbrev first_of_rows : {Row : Type 0} → List Row → Result Row
first_of_rows [] = err (sentinel record_not_found)
first_of_rows (r ∷ rs) = ok r

module _ {W Row : Type 0} (id : Row → Uuid) (get : W → List Row) (set : List Row → W → W)
    (fill : W → Row → Row) (after : Uuid → W → W) where
  abbrev pub list_table : Table W Row
  list_table = record {
    first = λ p w. (first_of_rows (keep p (visible id (get w))), w);
    find = λ p w. (ok (keep p (visible id (get w))), w);
    page = λ p offset limit w.
        (ok (take (pos_part limit) (drop (pos_part offset) (keep p (visible id (get w))))), w);
    count = λ p w. (ok (pos (length (keep p (visible id (get w))))), w);
    sum = λ p column w. (ok (sum_ℤ column (keep p (visible id (get w)))), w);
    create = λ r w.
        if is_some (look id (get w) (id r))
        then (err (message "duplicate key"), w)
        else (ok tt, set (fill w r ∷ get w) w);
    save = λ r w. (ok tt, set (r ∷ get w) w);
    update = λ p f w. (ok tt, set (amend id p f (get w)) w);
    delete = λ i w. (ok tt, after i (set (drop_id id i (get w)) w));
  }

  pub list_table-ReliableTable : ReliableTable list_table
  list_table-ReliableTable = record {
    first_fails = λ p w e h. missing (keep p (visible id (get w))) e h;
    find_returns = λ p w. (_, refl);
    page_returns = λ p offset limit w. (_, refl);
    count_returns = λ p w. (_, refl);
    save_returns = λ r w. (tt, refl);
    delete_returns = λ i w. (tt, refl);
  }
    where
      missing :
          (xs : List Row) (e : Error)
          → first_of_rows xs ≡ err e
          → is_error e record_not_found ≡ true
      missing [] e h =
          let same : sentinel record_not_found ≡ e = cc h in
          ap (λ x. is_error x record_not_found) (sym same)
      missing (x ∷ xs) e h = absurd (cc h)

  module _ (view : W → View) (rows : View → Rows Row) (put_rows : Rows Row → View → View)
      (view_get : (w : W) → rows (view w) ≡ look id (get w))
      (view_set : (rs : List Row) (w : W) → view (set rs w) ≡ put_rows (look id rs) (view w))
      (cascade : Uuid → View → View) (fill_id : (w : W) (r : Row) → id (fill w r) ≡ id r)
      (view_after : (i : Uuid) (w : W) → view (after i w) ≡ cascade i (view w)) where
    selects : (p : Row → Bool) (w : W) → Selects id p (rows (view w)) (keep p (visible id (get w)))
    selects p w = rw (view_get w) (keep-Selects id p (get w))

    first_ok :
        (p : Row → Bool) (rs : Rows Row) (xs : List Row) (r : Row)
        → All (λ x. (rs (id x) ≡ some x) × (p x ≡ true)) xs
        → first_of_rows xs ≡ ok r
        → (rs (id r) ≡ some r) × (p r ≡ true)
    first_ok p rs [] r h e = absurd (cc e)
    first_ok p rs (x ∷ xs) r h e = let same : x ≡ r = cc e in rw (← same) h.0

    first_missing :
        (p : Row → Bool) (w : W) (xs : List Row) (e : Error)
        → Selects id p (rows (view w)) xs
        → first_of_rows xs ≡ err e
        → (i : Uuid) (r : Row) → rows (view w) i ≡ some r
        → p r ≡ false
    first_missing p w [] e s h i r stored = elim (Bool-cases (p r)) [
      | inl pass ↦ elim (s.complete i r stored pass) [ ]
      | inr fail ↦ fail
    ]
    first_missing p w (x ∷ xs) e s h i r stored = absurd (cc h)

    create_ok :
        (r : Row) (w : W)
        → (list_table.create r w).0 ≡ ok tt
        → (rows (view w) (id r) ≡ none)
          × (view (list_table.create r w).1 ≡ put_rows (look id (fill w r ∷ get w)) (view w))
    create_ok r w h = go (look id (get w) (id r)) refl
      where
        go :
            (o : Option Row)
            → look id (get w) (id r) ≡ o
            → (rows (view w) (id r) ≡ none)
              × (view (list_table.create r w).1 ≡ put_rows (look id (fill w r ∷ get w)) (view w))
        go none e =
            (ap (λ (f : Rows Row). f (id r)) (view_get w) ∙ e, rw e (view_set (fill w r ∷ get w) w))
        go (some x) e = absurd (cc (rw e at h))

    create_err :
        (r : Row) (w : W) (e : Error)
        → (list_table.create r w).0 ≡ err e
        → view (list_table.create r w).1 ≡ view w
    create_err r w e h = elim (Bool-cases (is_some (look id (get w) (id r)))) [
      | inl taken ↦ rw taken refl
      | inr free ↦ absurd (cc (rw free at h))
    ]

    pub list_table-LawfulTable : LawfulTable view list_table id rows put_rows fill cascade
    list_table-LawfulTable = record {
      keyed =
          λ w i r h. look_keyed id (get w) i r (ap (λ (f : Rows Row). f i) (sym (view_get w)) ∙ h);
      first_ok = λ p w r h. first_ok p (rows (view w)) _ r ((selects p w).sound) h;
      first_missing = λ p w e h _. first_missing p w _ e (selects p w) h;
      first_view = λ p w. refl;
      find_ok = λ p w rs h.
          let same : keep p (visible id (get w)) ≡ rs = cc h in rw (← same) (selects p w);
      find_view = λ p w. refl;
      page_ok = λ p offset limit w rs _ h. (keep p (visible id (get w)), selects p w, cc h);
      page_view = λ p offset limit w. refl;
      count_ok = λ p w n h. (keep p (visible id (get w)), selects p w, cc h);
      count_view = λ p w. refl;
      sum_ok = λ p column w n h. (keep p (visible id (get w)), selects p w, cc h);
      sum_view = λ p column w. refl;
      create_ok = λ r w h.
          let (free, made) = create_ok r w h in
          (
            free,
            made
                ∙ ap (λ i. put_rows (put i (fill w r) (look id (get w))) (view w)) (fill_id w r)
                ∙ ap (λ f. put_rows (put (id r) (fill w r) f) (view w)) (sym (view_get w)),
          );
      create_err = create_err;
      save_ok = λ r w _.
          view_set (r ∷ get w) w ∙ ap (λ f. put_rows (put (id r) r f) (view w)) (sym (view_get w));
      save_err = λ r w e h. absurd (cc h);
      update_ok = λ p f w same _.
          view_set (amend id p f (get w)) w
          ∙ ap (λ x. put_rows x (view w))
              (look-amend id p f same (get w) ∙ ap (change_rows p f) (sym (view_get w)));
      update_err = λ p f w e h. absurd (cc h);
      delete_ok = λ i w _.
          view_after i (set (drop_id id i (get w)) w)
          ∙ ap (cascade i) (
              view_set (drop_id id i (get w)) w
              ∙ ap (λ x. put_rows x (view w))
                  (look-drop_id id i (get w) ∙ ap (remove i) (sym (view_get w))));
      delete_err = λ i w e h. absurd (cc h);
    }
