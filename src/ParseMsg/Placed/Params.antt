-- ===== src/ParseMsg/Placed/Params.antt =====
-- The parameters of a message that stands inside a longer array.
use ya_ircd.Prelude.{
  ℕ, zero, suc, ◌+◌, ◌<◌, ◌≡◌, refl, sym, ap, ◌∙◌, inl, inr, not, ◌&&◌, List, [], ◌∷◌, ◌++◌, map,
  some, ◌==◌, arith, length, set, length-set, Bool-cases,
}
use ya_ircd.ParseMsg.{char_at, skipspaces, skipnonspaces, read_trailing, read_params_from}
use ya_ircd.ParseMsg.Scan.{next_in}
use ya_ircd.ParseMsg.Placed.{
  IsString, map-append, k, placed, shift_params, char_at-placed, set-placed, skipspaces-placed,
  skipnonspaces-placed, shift_read, set-IsString, skipspaces-below, skipnonspaces-below,
}

module _ (pre post : List ℕ) where
  read_trailing-placed :
      (str : List ℕ) (i : ℕ) (params : List ℕ) (left : ℕ)
      → IsString str
      → i < length str
      → read_trailing (placed pre post str) (k pre post + i) (map (λ n. k pre post + n) params) left
        ≡ shift_params pre post (read_trailing str i params left)
  unfolding read_trailing
  read_trailing-placed str i params left v h =
      let same = char_at-placed pre post str i refl h in
      elim (Bool-cases (char_at str i == b':')) [
        | inr other ↦ rw (same, other) refl
        | inl colon ↦ elim (Bool-cases (left == 0)) [
          | inl full ↦ rw (same, colon, full) refl
          | inr room ↦
              let inside = next_in {i = i} v h (ground arith) in
              let next =
                skipspaces-placed pre post str (i + 1) {j = k pre post + i + 1} v (omega arith)
                  inside in
              rw (same, colon, room, next)
                (ap some
                  (sym (map-append (λ n. k pre post + n) params (skipspaces str (i + 1) ∷ []))))
        ]
      ]

  pub read_params_from-placed :
      (str : List ℕ) (i : ℕ) (params : List ℕ) (left : ℕ) {j : ℕ}
      → IsString str
      → j ≡ k pre post + i
      → i < length str
      → read_params_from (placed pre post str) j (map (λ n. k pre post + n) params) left
        ≡ shift_read pre post (read_params_from str i params left)
  unfolding read_params_from
  read_params_from-placed str i params zero v e h =
      let start = skipspaces-placed pre post str i v e h in
      let inside = skipspaces-below pre post str i v h in
      let same = char_at-placed pre post str (skipspaces str i) refl inside in
      let c = char_at str (skipspaces str i) in
      let c' = char_at (placed pre post str) (k pre post + skipspaces str i) in
      let same_test : (not (c' == 0) && not (c' == b':')) ≡ (not (c == 0) && not (c == b':')) =
        ap (λ x. not (x == 0) && not (x == b':')) same in
      elim (Bool-cases (not (c == 0) && not (c == b':'))) [
        | inl more ↦ rw (start, same_test ∙ more, more) refl
        | inr stop ↦
            rw (start, same_test ∙ stop, stop)
              (ap (λ r. (r, placed pre post str))
                (read_trailing-placed str (skipspaces str i) params 0 v inside))
      ]
  read_params_from-placed str i params (suc left) v e h =
      let start = skipspaces-placed pre post str i v e h in
      let inside = skipspaces-below pre post str i v h in
      let same = char_at-placed pre post str (skipspaces str i) refl inside in
      let c = char_at str (skipspaces str i) in
      let at = skipnonspaces str (skipspaces str i) in
      let next = skipnonspaces-placed pre post str (skipspaces str i) v refl inside in
      let next_inside = skipnonspaces-below pre post str (skipspaces str i) v inside in
      let same_next = char_at-placed pre post str at refl next_inside in
      let more_params = map-append (λ n. k pre post + n) params (skipspaces str i ∷ []) in
      let longer = params ++ (skipspaces str i ∷ []) in
      let c' = char_at (placed pre post str) (k pre post + skipspaces str i) in
      let same_test : (not (c' == 0) && not (c' == b':')) ≡ (not (c == 0) && not (c == b':')) =
        ap (λ x. not (x == 0) && not (x == b':')) same in
      elim (Bool-cases (not (c == 0) && not (c == b':'))) [
        | inr stop ↦
            rw (start, same_test ∙ stop, stop)
              (ap (λ r. (r, placed pre post str))
                (read_trailing-placed str (skipspaces str i) params (suc left) v inside))
        | inl more ↦ elim (Bool-cases (char_at str at == 0)) [
          | inl last ↦
              rw (start, same_test ∙ more, more, next, same_next, last, ← more_params)
                (read_params_from-placed str at longer left v refl next_inside)
          | inr space ↦
              let behind = next_in {i = at} v next_inside (ground arith) in
              rw
                (
                  start,
                  same_test ∙ more,
                  more,
                  next,
                  same_next,
                  space,
                  ← more_params,
                  set-placed pre post str at next_inside,
                )
                (read_params_from-placed (set str at 0) (at + 1) longer left
                  (set-IsString pre post str at v next_inside) (omega arith)
                  (omega (arith, length-set str at 0)))
        ]
      ]
