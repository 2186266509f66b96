-- ===== src/Run/Returns.antt =====
-- A computation on fuel that returns: from some fuel on its result is the same, and is a result.
use metel.Prelude.{ℕ, zero, suc, ◌≡◌, ◌≢◌, refl, sym, ◌∙◌, ◌≤◌, arith, max}
use metel.Error.{MetelError}
use metel.Run.{Run, ok, err, out_of_fuel, ◌>>=◌}

module _ {ℓ} {A : Type ℓ} where
  pub record Returns (g : ℕ → Run A) : Type ℓ where
    pub from : ℕ
    pub result : Run A
    pub stable : (fuel : ℕ) → from ≤ fuel → g fuel ≡ result
    pub returned : result ≢ out_of_fuel

  pub Returns-ok : (a : A) → Returns (λ fuel. ok a)
  Returns-ok a = record { from = 0; result = ok a; stable = λ fuel h. refl; returned = cc }

  pub Returns-err : (e : MetelError) → Returns (λ fuel. err e)
  Returns-err e = record { from = 0; result = err e; stable = λ fuel h. refl; returned = cc }

  -- The same computation, written otherwise.
  pub Returns-map : (g h : ℕ → Run A) → ((fuel : ℕ) → g fuel ≡ h fuel) → Returns g → Returns h
  Returns-map g h e r = record {
    from = r.from;
    result = r.result;
    stable = λ fuel l. sym (e fuel) ∙ r.stable fuel l;
    returned = r.returned;
  }

  -- A computation that spends one unit before it goes on.
  pub Returns-suc : (g : ℕ → Run A) → Returns (λ fuel. g (suc fuel)) → Returns g
  Returns-suc g r = record {
    from = suc r.from;
    result = r.result;
    stable = go;
    returned = r.returned;
  }
    where
      go : (fuel : ℕ) → suc r.from ≤ fuel → g fuel ≡ r.result
      go zero h = absurd (omega arith)
      go (suc fuel) h = r.stable fuel (omega arith)

module _ {ℓ κ} {A : Type ℓ} {B : Type κ} where
  -- One computation after another. The second returns for what the first gives.
  pub Returns-bind :
      (g : ℕ → Run A) (k : ℕ → A → Run B)
      → (first : Returns g) → ((a : A) → g first.from ≡ ok a → Returns (λ fuel. k fuel a))
      → Returns (λ fuel. g fuel >>= k fuel)
  Returns-bind g k first next = go first.result refl
    where
      go : (o : Run A) → first.result ≡ o → Returns (λ fuel. g fuel >>= k fuel)
      go (ok a) e =
          let second = next a (first.stable first.from (omega arith) ∙ e) in
          record {
            from = max first.from second.from;
            result = second.result;
            stable = λ fuel h.
                rw (first.stable fuel (omega arith) ∙ e) (second.stable fuel (omega arith));
            returned = second.returned;
          }
      go (err x) e = record {
        from = first.from;
        result = err x;
        stable = λ fuel h. rw (first.stable fuel h ∙ e);
        returned = cc;
      }
      go out_of_fuel e = absurd (first.returned e)
