-- ===== src/Go/Program/Deciding.antt =====
-- Programs that only check: they go on with the world as it was, or end with exit code 1.
use gpbackman.Base.{
  ◌≡◌, refl, ap, ◌∙◌, ◌⊎◌, inl, inr, String, Bool, true, false, List, [], ◌∷◌, All,
}
use gpbackman.Go.Result.{Error, Result, ok, err, panic}
use gpbackman.Go.Program.{
  returned, exit, Program, give, go_on, ◌>>=◌, ◌>>◌, when, failing, check, for_each,
}

-- `m` goes on exactly where `Q` holds, and leaves the world as it was; elsewhere it ends with 1.
pub record Decides {κ} {W : Type 0} (Q : W → Type κ) (m : Program W (Unit {0})) : Type κ where
  pub at : (w : W) → (Q w × (m w ≡ (returned tt, w))) ⊎ ((Q w → ⊥) × ((m w).0 ≡ exit 1))

module _ {W : Type 0} where
  pub Decides-give : Decides {W = W} (λ _. Unit {0}) (give tt)
  unfolding give
  Decides-give = record { at = λ w. inl (tt, refl) }

  bind_value : (m n : Program W (Unit {0})) (w v : W) → m w ≡ (returned tt, v) → (m >> n) w ≡ n v
  unfolding ◌>>=◌
  bind_value m n w v e = ap (λ out. go_on out.0 (λ _. n) out.1) e

  bind_exit : (m n : Program W (Unit {0})) (w : W) → (m w).0 ≡ exit 1 → ((m >> n) w).0 ≡ exit 1
  unfolding ◌>>=◌
  bind_exit m n w e = ap (λ o. (go_on o (λ _. n) (m w).1).0) e

-- The two ends, at one world.
abbrev Verdict {κ} : {W : Type 0} → Type κ → Program W (Unit {0}) → W → Type κ
Verdict Q m w = (Q × (m w ≡ (returned tt, w))) ⊎ ((Q → ⊥) × ((m w).0 ≡ exit 1))

module _ {κ μ} {W : Type 0} {Q : Type κ} {R : Type μ} where
  both :
      (m n : Program W (Unit {0})) (w : W)
      → Verdict Q m w
      → Verdict R n w
      → Verdict (Q × R) (m >> n) w
  both m n w (inl (q, e)) (inl (r, d)) = inl ((q, r), bind_value m n w w e ∙ d)
  both m n w (inl (q, e)) (inr (r, d)) =
      inr ((λ qr. r qr.1), ap (λ out. out.0) (bind_value m n w w e) ∙ d)
  both m n w (inr (q, e)) rest = inr ((λ qr. q qr.0), bind_exit m n w e)

module _ {κ μ} {W : Type 0} {Q : W → Type κ} {R : W → Type μ} where
  pub Decides-then :
      (m n : Program W (Unit {0})) → Decides Q m → Decides R n → Decides (λ w. Q w × R w) (m >> n)
  Decides-then m n dm dn = record { at = λ w. both m n w (dm.at w) (dn.at w) }

checked {κ} :
    {W : Type 0} {Q : Type κ} (handler : Error → Program W (Unit {0})) (w : W)
    (r : Result (Unit {0}))
    → ((r ≡ ok tt → Q) × (Q → r ≡ ok tt))
    → ((p : String) → r ≡ panic p → ⊥)
    → ((e : Error) → (handler e w).0 ≡ exit 1)
    → Verdict Q (failing r handler) w
unfolding give
checked handler w (ok u) q safe ends = inl (q.0 refl, refl)
checked handler w (err e) q safe ends = inr ((λ h. let no = q.1 h in cc), ends e)
checked handler w (panic p) q safe ends = absurd (safe p refl)

module _ {κ} {W : Type 0} {Q : W → Type κ} where
  pub Decides-when :
      (test : Bool) (m : Program W (Unit {0}))
      → Decides Q m
      → Decides (λ w. test ≡ true → Q w) (when test m)
  unfolding when give
  Decides-when true m dm = record {
    at = λ w. elim (dm.at w) [
      | inl (q, e) ↦ inl ((λ _. q), e)
      | inr (q, e) ↦ inr ((λ f. q (f refl)), e)
    ];
  }
  Decides-when false m dm = record { at = λ w. inl ((λ h. absurd (cc)), refl) }

  pub Decides-check :
      (call : W → Result (Unit {0})) (handler : Error → Program W (Unit {0}))
      → ((w : W) → (call w ≡ ok tt → Q w) × (Q w → call w ≡ ok tt))
      → ((w : W) (p : String) → call w ≡ panic p → ⊥)
      → ((e : Error) (w : W) → (handler e w).0 ≡ exit 1)
      → Decides Q (check call handler)
  unfolding check
  Decides-check call handler q safe ends = record {
    at = λ w. checked handler w (call w) (q w) (safe w) (λ e. ends e w);
  }

module _ {κ μ} {W : Type 0} {Q : W → Type κ} {R : W → Type μ} where
  -- The condition may be put in another form.
  pub Decides-iff :
      (m : Program W (Unit {0})) → ((w : W) → (Q w → R w) × (R w → Q w)) → Decides Q m → Decides R m
  Decides-iff m same dm = record {
    at = λ w. elim (dm.at w) [
      | inl (q, e) ↦ inl ((same w).0 q, e)
      | inr (q, e) ↦ inr ((λ r. q ((same w).1 r)), e)
    ];
  }

module _ {ℓ κ} {W : Type 0} {A : Type ℓ} {Q : A → W → Type κ} where
  pub Decides-for_each :
      (list : List A) (body : A → Program W (Unit {0}))
      → ((a : A) → Decides (Q a) (body a))
      → Decides (λ w. All (λ a. Q a w) list) (for_each list body)
  unfolding for_each give
  Decides-for_each [] body d = record { at = λ w. inl (tt, refl) }
  Decides-for_each (item ∷ list) body d =
      Decides-then (body item) (for_each list body) (d item) (Decides-for_each list body d)
