-- ===== src/Connection/Transfer/Rounds.antt =====
-- Rounds between two connections of magnum-tcp/src/tcp/connection.rs, whatever the link does in each.
use magnus_tcp.Base.{
  ℕ, zero, suc, ◌+◌, ◌-◌, ◌≤◌, ◌<◌, ◌≡◌, sym, List, [], ◌++◌, append_assoc, append-nil, arith,
  length, length-append,
}
use magnus_tcp.Connection.{Connection}
use magnus_tcp.Connection.Transfer.{Round}

-- What rounds deliver, and the two connections behind them. Round `k` is the one with `k` to come.
unfoldable pub repeat :
    {F : Type 0}
    → (ℕ → Connection F → Connection F → Round F)
    → ℕ
    → (a b : Connection F) → List ℕ × Connection F × Connection F
repeat step zero a b = ([], a, b)
repeat step (suc k) a b =
    let r = step k a b in
    let (rest, a', b') = repeat step k r.sender r.receiver in (r.delivered ++ rest, a', b')

-- What is known of a round that starts and ends with `Rest`, whether or not there was something to send.
pub record Advances {F : Type 0} (Rest : List ℕ → Connection F → Connection F → Type 0)
    (out : List ℕ) (a : Connection F) (r : Round F) : Type 0 where
  pub rests : Rest (out ++ r.delivered) r.sender r.receiver
  pub taken : length r.delivered + r.sender.send_buf.len ≡ a.send_buf.len
  pub progress : 0 < a.send_buf.len → 0 < length r.delivered

-- What is known once some rounds are over.
pub record Delivered {F : Type 0} (Rest : List ℕ → Connection F → Connection F → Type 0)
    (rounds : ℕ) (out got : List ℕ) (a a' b' : Connection F) : Type 0 where
  pub rests : Rest (out ++ got) a' b'
  pub taken : length got + a'.send_buf.len ≡ a.send_buf.len
  pub left : a'.send_buf.len ≤ a.send_buf.len - rounds

shrinks :
    (len n mid end k : ℕ) → (0 < len → 0 < n) → n + mid ≡ len → end ≤ mid - k → end ≤ len - suc k
shrinks zero n mid end k p e h = omega arith
shrinks (suc len) n mid end k p e h = omega (arith, p (omega arith))

module _ {F : Type 0} (Rest : List ℕ → Connection F → Connection F → Type 0)
    (step : ℕ → Connection F → Connection F → Round F)
    (advances : (k : ℕ) (out : List ℕ) (a b : Connection F)
      → Rest out a b
      → Advances Rest out a (step k a b)) where
  pub repeat-Delivered :
      (rounds : ℕ) (out : List ℕ) (a b : Connection F)
      → Rest out a b
      → let (got, a', b') = repeat step rounds a b in Delivered Rest rounds out got a a' b'
  unfolding repeat
  repeat-Delivered zero out a b s = record {
    rests = rw (append-nil out) s;
    taken = omega arith;
    left = omega arith;
  }
  repeat-Delivered (suc k) out a b s =
      let r : Round F = step k a b in
      let now : Advances Rest out a r = advances k out a b s in
      let later = repeat-Delivered k (out ++ r.delivered) r.sender r.receiver now.rests in
      record {
        rests =
            rw (sym (append_assoc out r.delivered (repeat step k r.sender r.receiver).0))
              later.rests;
        taken = omega (
          arith,
          now.taken,
          later.taken,
          length-append r.delivered (repeat step k r.sender r.receiver).0,
        );
        left = shrinks a.send_buf.len (length r.delivered) _ _ k now.progress now.taken later.left;
      }
