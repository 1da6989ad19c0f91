-- ===== src/Timer/Cells.antt =====
-- timer/src/lst_timer.cpp: reading and writing one timer of a chain.
use my_web_server_cmake.Prelude.{ℕ, ◌≡◌, ◌≢◌, arith, Option, none, some, List, [], ◌∷◌, ◌∙◌}
use my_web_server_cmake.Prelude.Run.{done}
use my_web_server_cmake.Timer.{UtilTimer, Heap, put, load, set_next, set_prev, free}
use my_web_server_cmake.Timer.Chain.{Entry, node, first, last, Chain, ◌∉◌, Distinct, Chain-put}

pub put_self : (h : Heap) (p : ℕ) (v : Option UtilTimer) → put h p v p ≡ v
unfolding put
put_self h p v = ground arith

pub put_other : (h : Heap) (p q : ℕ) (v : Option UtilTimer) → q ≢ p → put h p v q ≡ h q
unfolding put
put_other h p q v ne = ground arith

module _ (h : Heap) (p : ℕ) (t : UtilTimer) (e : h p ≡ some t) where
  pub load-some : load h (some p) ≡ done t
  unfolding load
  load-some = simp (load, e)

  pub set_next-some :
      (q : Option ℕ) → set_next (some p) q h ≡ done (put h p (some (record t { next = q })))
  unfolding set_next
  set_next-some q = simp (set_next, e)

  pub set_prev-some :
      (q : Option ℕ) → set_prev (some p) q h ≡ done (put h p (some (record t { prev = q })))
  unfolding set_prev
  set_prev-some q = simp (set_prev, e)

  pub free-some : free (some p) h ≡ done (put h p none)
  unfolding free
  free-some = simp (free, e)

pub ne_of_out : (p : ℕ) (e : Entry) (es : List Entry) → p ∉ (e ∷ es) → p ≢ e.ptr
ne_of_out p e es out z = ground (arith, z)

-- A chain that is not empty goes on to another address after a write of its last `next`.
pub set_next-last :
    (h : Heap) (b a a' : Option ℕ) (x : Entry) (xs : List Entry)
    → Chain h b (x ∷ xs) a
    → Distinct (x ∷ xs)
    → (g : Heap) × (set_next (last (x ∷ xs) b) a' h ≡ done g)
      × Chain g b (x ∷ xs) a'
      × ((p : ℕ) → p ∉ (x ∷ xs) → g p ≡ h p)
set_next-last h b a a' x [] c d = (
  put h x.ptr (some (node b a' x)),
  set_next-some h x.ptr (node b a x) c.0 a',
  (put_self h x.ptr (some (node b a' x)), tt),
  (λ p out. put_other h x.ptr p (some (node b a' x)) (ne_of_out p x [] out)),
)
set_next-last h b a a' x (y ∷ ys) c d =
    let (g, e, chain, same) = set_next-last h (some x.ptr) a a' y ys c.1 d.1 in
    (g, e, (same x.ptr d.0 ∙ c.0, chain), (λ p out. same p (ground (arith, out))))

-- A chain that is not empty starts behind another address after a write of its first `prev`.
pub set_prev-first :
    (h : Heap) (b b' a : Option ℕ) (y : Entry) (ys : List Entry)
    → Chain h b (y ∷ ys) a
    → Distinct (y ∷ ys)
    → (g : Heap) × (set_prev (some y.ptr) b' h ≡ done g)
      × Chain g b' (y ∷ ys) a
      × ((p : ℕ) → p ≢ y.ptr → g p ≡ h p)
set_prev-first h b b' a y ys c d =
    let v = some (node b' (first ys a) y) in
    (
      put h y.ptr v,
      set_prev-some h y.ptr (node b (first ys a) y) c.0 b',
      (put_self h y.ptr v, Chain-put h y.ptr v (some y.ptr) a ys d.0 c.1),
      (λ p ne. put_other h y.ptr p v ne),
    )

pub out-tail : (p : ℕ) (e : Entry) (es : List Entry) → p ∉ (e ∷ es) → p ∉ es
out-tail p e es out = ground (arith, out)

pub out-cons : (p : ℕ) (e : Entry) (es : List Entry) → p ≢ e.ptr → p ∉ es → p ∉ (e ∷ es)
out-cons p e es ne out = ground (arith, ne, out)
