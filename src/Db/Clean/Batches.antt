-- ===== src/Db/Clean/Batches.antt =====
-- The batches of CleanBackupsDB.
use gpbackman.Base.{
  ℕ, zero, suc, ◌+◌, ◌-◌, ◌≤◌, ◌<◌, ◌≡◌, refl, sym, ◌∙◌, ap, String, true, false, List, [], ◌∷◌,
  ◌++◌, arith, ltb, length, take, drop, All, Bool-cases, inl, inr,
}
use gpbackman.Go.Exec.{Exec, pure, ◌>>◌}
use gpbackman.Host.{Host}
use gpbackman.Db.Clean.{clean_batch, clean_loop, clean_backups_db, sub_list}

unfoldable pub gather : List (List String) → List String
gather [] = []
gather (b ∷ bs) = b ++ gather bs

drop-past : (l : List String) (i : ℕ) → length l ≤ i → drop i l ≡ []
drop-past [] zero h = refl
drop-past [] (suc i) h = refl
drop-past (x ∷ l) zero h = absurd (omega arith)
drop-past (x ∷ l) (suc i) h = drop-past l i (omega arith)

drop-add : (i k : ℕ) (l : List String) → drop (i + k) l ≡ drop k (drop i l)
drop-add zero k l = ap (λ n. drop n l) (omega arith)
drop-add (suc i) k (x ∷ l) =
    ap (λ n. drop n (x ∷ l)) {x = suc i + k} {y = suc (i + k)} (omega arith) ∙ drop-add i k l
drop-add (suc i) zero [] = ap (λ n. drop n []) {x = suc i + zero} {y = suc i} (omega arith)
drop-add (suc i) (suc k) [] =
    ap (λ n. drop n []) {x = suc i + suc k} {y = suc (i + suc k)} (omega arith)

take-drop : (k : ℕ) (l : List String) → take k l ++ drop k l ≡ l
take-drop zero l = refl
take-drop (suc k) [] = refl
take-drop (suc k) (x ∷ l) = ap (λ rest. x ∷ rest) (take-drop k l)

slice-rest :
    (l : List String) (i k n : ℕ)
    → drop (i + k) l ≡ drop (i + n) l
    → take k (drop i l) ++ drop (i + n) l ≡ drop i l
slice-rest l i k n h =
    ap (λ rest. take k (drop i l) ++ rest) (sym h ∙ drop-add i k l) ∙ take-drop k (drop i l)

length-slice : (l : List String) (i k : ℕ) → i + k ≤ length l → length (take k (drop i l)) ≡ k
length-slice l i zero h = refl
length-slice [] i (suc k) h = absurd (omega arith)
length-slice (x ∷ l) zero (suc k) h = omega (arith, length-slice l zero k (omega arith))
length-slice (x ∷ l) (suc i) (suc k) h = length-slice l i (suc k) (omega arith)

not_below : (a b : ℕ) → b ≤ a → ltb a b ≡ false
not_below a b h = ground arith

below : (a b : ℕ) → ltb a b ≡ true → a < b
below a b h = ground arith

above : (a b : ℕ) → ltb a b ≡ false → b ≤ a
above a b h = ground arith

-- A batch is not empty and holds at most `size` names.
abbrev pub Fits : ℕ → List String → Type 0
Fits size batch = (1 ≤ length batch) × (length batch ≤ size)

module _ (H : Host) where
  -- One round for each batch, in order, up to the first that fails.
  unfoldable pub for_batches : List (List String) → Exec H.World (Unit {0})
  for_batches [] = pure tt
  for_batches (b ∷ bs) = clean_batch H b >> for_batches bs

  abbrev pub Cleans : ℕ → List String → Exec H.World (Unit {0}) → Type 0
  Cleans size names run =
      (bs : List (List String)) × (gather bs ≡ names) × All (Fits size) bs × (run ≡ for_batches bs)

  add_batch :
      (list : List String) (size i end : ℕ) (run : Exec H.World (Unit {0}))
      → i < end
      → end ≤ length list
      → end ≤ i + size
      → drop end list ≡ drop (i + size) list
      → Cleans size (drop (i + size) list) run
      → Cleans size (drop i list) (clean_batch H (sub_list list i end) >> run)
  unfolding for_batches gather
  add_batch list size i end run h k m d (bs, g, f, r) =
      let n : length (sub_list list i end) ≡ end - i =
        length-slice list i (end - i) (omega arith) in
      let e : drop (i + (end - i)) list ≡ drop (i + size) list =
        ap (λ j. drop j list) {x = i + (end - i)} {y = end} (omega arith) ∙ d in
      (
        sub_list list i end ∷ bs,
        ap (λ rest. sub_list list i end ++ rest) g ∙ slice-rest list i (end - i) size e,
        ((omega (arith, n), omega (arith, n)), f),
        ap (λ rest. clean_batch H (sub_list list i end) >> rest) r,
      )

  clean_loop-Cleans :
      (fuel : ℕ) (list : List String) (size i : ℕ)
      → 1 ≤ size
      → length list ≤ fuel + i
      → Cleans size (drop i list) (clean_loop H (suc fuel) list size i)
  unfolding clean_loop for_batches gather
  clean_loop-Cleans zero list size i h k =
      rw (not_below i (length list) (omega arith))
        ([], sym (drop-past list i (omega arith)), tt, refl)
  clean_loop-Cleans (suc fuel) list size i h k =
      let rest = clean_loop-Cleans fuel list size (i + size) h (omega arith) in
      elim (Bool-cases (ltb i (length list))) [
        | inr e ↦ rw e ([], sym (drop-past list i (above i (length list) e)), tt, refl)
        | inl e ↦ elim (Bool-cases (ltb (length list) (i + size))) [
          | inl short ↦
              rw (e, short)
                (add_batch list size i (length list) _ (below i (length list) e) (omega arith)
                  (omega (arith, below (length list) (i + size) short))
                  (drop-past list (length list) (omega arith)
                    ∙ sym (
                        drop-past list (i + size)
                          (omega (arith, below (length list) (i + size) short))))
                  rest)
          | inr full ↦
              rw (e, full)
                (add_batch list size i (i + size) _ (omega arith)
                  (above (length list) (i + size) full) (omega arith) refl rest)
        ]
      ]

  -- With a positive batch size the loop ends, within the fuel given: it runs one round of the seven
  -- deletions for each of some batches, in order, which are not empty, hold at most that many names
  -- each, and together are the list, without a gap, a repetition or a change of order.
  pub clean_backups_db-Cleans :
      (list : List String) (size : ℕ) → 1 ≤ size → Cleans size list (clean_backups_db H list size)
  unfolding clean_backups_db
  clean_backups_db-Cleans list size h = clean_loop-Cleans (length list) list size 0 h (omega arith)
