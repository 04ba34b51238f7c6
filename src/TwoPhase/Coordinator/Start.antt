-- ===== src/TwoPhase/Coordinator/Start.antt =====
-- The state in which lab3/src_2pc/Coordinator.cpp starts to wait for the votes.
use cloud_computing_lab.Base.{
  is_negative, All-map, ℕ, ◌+◌, ◌≡◌, refl, sym, ap, ◌∙◌, Bool, true, false, List, [], ◌∷◌, arith,
  All, ℤ, is_positive, minus_one, Bool-cases, inl, inr,
}
use mathlib.Core.Bool.{false≢true}
use cloud_computing_lab.TwoPhase.Coordinator.{
  Network, Process, Peer, is_set, connect_one, connect_all, try_connect, open_socket, open_fd,
}
use cloud_computing_lab.TwoPhase.Coordinator.Peers.{connected, bit, count, Apart, Distinct}
use cloud_computing_lab.TwoPhase.Coordinator.Steps.{
  IsKernel, Grows, try_connect-open, try_connect-positive, open_fd_self, open_fd-more,
  positive-not-negative,
}

abbrev pub IsOpen : Process → Peer → Type 0
IsOpen p q = connected q ≡ true → is_set q.socket p.open_fds ≡ true

abbrev pub IsNew : Process → Peer → Type 0
IsNew p q = connected q ≡ true → is_set q.socket p.open_fds ≡ false

-- Connecting leads from the process `p` to `p'`: sockets that were not open and now are, no two
-- alike, `n` of them.
pub record Linked (p : Process) (ps : List Peer) (p' : Process) (n : ℕ) : Type 0 where
  pub grows : Grows p p'
  pub are_open : All (IsOpen p') ps
  pub are_new : All (IsNew p) ps
  pub distinct : Distinct ps
  pub number : n ≡ count connected ps

module _ (net : Network) (kernel : IsKernel net) where
  connect_one-Linked :
      (q : Peer) (p : Process)
      → q.socket ≡ minus_one
      → let (q', p', n) = connect_one net q p in Linked p (q' ∷ []) p' n
  unfolding connect_one
  connect_one-Linked q p off = elim (Bool-cases q.valid) [
    | inr invalid ↦ rw invalid (unlinked p (λ x h. h) false)
    | inl valid ↦ elim (Bool-cases (try_connect net 3 fd q.address (open_socket net p)).0) [
      | inr e ↦ rw (valid, e) (unlinked _ more false)
      | inl e ↦
          rw (valid, e)
            (record {
              grows = more;
              are_open = (λ c. rw opened (open_fd_self fd p.open_fds (new_fd e)), tt);
              are_new = (λ c. kernel.socket_fresh p.clock p.open_fds (new_fd e), tt);
              distinct = (λ c. tt, tt);
              number = omega (
                arith,
                ap bit (try_connect-positive net kernel 3 fd q.address (open_socket net p) e),
              );
            })
    ]
  ]
    where
      fd : ℤ
      fd = net.socket p.clock p.open_fds

      new_fd :
          (try_connect net 3 fd q.address (open_socket net p)).0 ≡ true → is_negative fd ≡ false
      new_fd e =
          positive-not-negative fd
            (try_connect-positive net kernel 3 fd q.address (open_socket net p) e)

      opened :
          (try_connect net 3 fd q.address (open_socket net p)).1.open_fds ≡ open_fd fd p.open_fds
      opened = try_connect-open net kernel 3 fd q.address (open_socket net p)

      more : Grows p (try_connect net 3 fd q.address (open_socket net p)).1
      more = λ x h. rw opened (open_fd-more x fd p.open_fds h)

      off' : connected q ≡ false
      off' = ap is_positive off

      unlinked :
          (p' : Process) → Grows p p' → (b : Bool) → Linked p (record q { valid = b } ∷ []) p' 0
      unlinked p' g b = record {
        grows = g;
        are_open = (λ c. absurd (false≢true (sym off' ∙ c)), tt);
        are_new = (λ c. absurd (false≢true (sym off' ∙ c)), tt);
        distinct = (λ c. tt, tt);
        number = omega (arith, ap bit off');
      }

  pub connect_all-Linked :
      (ps : List Peer) (p : Process)
      → All (λ q. q.socket ≡ minus_one) ps
      → let (ps', p', n) = connect_all net ps p in Linked p ps' p' n
  unfolding connect_all
  connect_all-Linked [] p off = record {
    grows = λ x h. h;
    are_open = tt;
    are_new = tt;
    distinct = tt;
    number = refl;
  }
  connect_all-Linked (q ∷ ps) p (off, offs) =
      join (connect_one net q p).0 (connect_one net q p).1 (connect_one net q p).2
        (connect_all net ps (connect_one net q p).1).0 _ _ (connect_one-Linked q p off)
        (connect_all-Linked ps (connect_one net q p).1 offs)
    where
      join :
          (q : Peer) (p1 : Process) (n : ℕ) (qs : List Peer) (p2 : Process) (m : ℕ)
          → Linked p (q ∷ []) p1 n
          → Linked p1 qs p2 m
          → Linked p (q ∷ qs) p2 (n + m)
      join q p1 n qs p2 m a b = record {
        grows = λ x h. b.grows x (a.grows x h);
        are_open = (λ c. b.grows q.socket (a.are_open.0 c), b.are_open);
        are_new = (
          a.are_new.0,
          All-map {P = IsNew p1} {Q = IsNew p} qs (λ x new c. older x.socket (new c)) b.are_new,
        );
        distinct = (
          λ c.
              All-map {P = IsNew p1} {Q = Apart q.socket} qs
                (λ x new d e.
                  false≢true (sym (new d) ∙ ap (λ s. is_set s p1.open_fds) e ∙ a.are_open.0 c))
                b.are_new,
          b.distinct,
        );
        number = omega (arith, a.number, b.number);
      }
        where
          older : (s : ℤ) → is_set s p1.open_fds ≡ false → is_set s p.open_fds ≡ false
          older s h = elim (Bool-cases (is_set s p.open_fds)) [
            | inl e ↦ absurd (false≢true (sym h ∙ a.grows s e))
            | inr e ↦ e
          ]
