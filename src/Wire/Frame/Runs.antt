-- ===== src/Wire/Frame/Runs.antt =====
-- Successful reads: what a reader returns, and what it leaves, from a socket that delivers.
use ascension_preservation.Common.{
  ℕ, ◌≡◌, refl, ◌∙◌, Option, [], ◌∷◌, ◌++◌, length, ◌==◌, arith, suc, false, take-append,
  drop-append, length-append,
}
use ascension_preservation.Common.Bytes.{Bytes}
use ascension_preservation.Wire.Rc4.{Rc4, crypt?}
use ascension_preservation.Wire.Socket.{Socket, recv_exact}
use ascension_preservation.Wire.Socket.Delivery.{Delivers, recv_exact-delivers}
use ascension_preservation.Wire.Frame.{
  Link, Outcome, done, Reader, ◌>>=◌, pure, receive, receive_body, decipher,
}

module _ (k : Socket) (pending : k.State → Bytes) where
  -- Where a run ends: with the result `a`, the cipher `d` and the bytes `rest` still to be read.
  pub record Ends {A : Type 0} (a : A) (d : Option Rc4) (rest : Bytes) (o : Outcome A × Link k)
      : Type 0 where
    pub sock : k.State
    pub result : o ≡ (done a, record { sock = sock; dec = d })
    pub left : pending sock ≡ rest

  -- From cipher `d`, with the bytes `p` waiting, the reader returns `a`, and leaves `d'` and `p'`.
  pub record Runs {A : Type 0} (m : Reader k A) (d : Option Rc4) (p : Bytes) (a : A)
      (d' : Option Rc4) (p' : Bytes) : Type 0 where
    pub from : (s : k.State) → pending s ≡ p → Ends a d' p' (m (record { sock = s; dec = d }))

  pub Runs-pure : {A : Type 0} (a : A) (d : Option Rc4) (p : Bytes) → Runs (pure k a) d p a d p
  Runs-pure a d p = record { from = λ s h. record { sock = s; result = refl; left = h } }

  pub Runs-bind :
      {A B : Type 0} (m : Reader k A) (f : A → Reader k B) {d d' d'' : Option Rc4}
      {p p' p'' : Bytes} {a : A} {b : B}
      → Runs m d p a d' p'
      → Runs (f a) d' p' b d'' p''
      → Runs (◌>>=◌ k m f) d p b d'' p''
  Runs-bind m f rm rf = record {
    from = λ s h.
        let e = rm.from s h in
        let e' = rf.from e.sock e.left in
        record { sock = e'.sock; result = rw e.result e'.result; left = e'.left };
  }

  pub Runs-decipher :
      (b : Bytes) (d : Option Rc4) (p : Bytes)
      → Runs (decipher k b) d p (crypt? d b).0 (crypt? d b).1 p
  unfolding decipher
  Runs-decipher b d p = record { from = λ s h. record { sock = s; result = refl; left = h } }

  module _ (delivers : Delivers k pending) where
    pub Runs-receive :
        (n : ℕ) (b : Bytes) (d : Option Rc4) (p : Bytes)
        → length b ≡ n
        → Runs (receive k n) d (b ++ p) b d p
    unfolding receive
    Runs-receive n b d p e = record {
      from = λ s h.
          let (r, l) =
            recv_exact-delivers k pending delivers n s (rw h (omega (arith, length-append b p))) in
          record {
            sock = (recv_exact k n s).1;
            result = rw (r, h, take-append n b p e);
            left = l ∙ rw (h, drop-append n b p e);
          };
    }

    pub Runs-receive_body :
        (b : Bytes) (d : Option Rc4) (p : Bytes) → Runs (receive_body k (length b)) d (b ++ p) b d p
    unfolding receive_body
    Runs-receive_body [] d p = Runs-pure [] d p
    Runs-receive_body (x ∷ b) d p =
        let e : (suc (length b) == 0) ≡ false = ground arith in
        rw e (Runs-receive (length (x ∷ b)) (x ∷ b) d p refl)
