-- ===== src/Peer/Reading.antt =====
-- What whoever made a request takes from its queue (runtime/peer.py, `__aiter__` and `wait`) leaves it
-- in shape.
use ovn_fabric.Prelude.{
  String, ◌≡◌, refl, ap, ◌∙◌, true, false, some, List, [], ◌∷◌, ◌++◌, All, lookup, lookup-insert,
  contains, str_eq, Bool-cases, inl, inr, arith,
}
use mathlib.Core.Path.{subst}
use ovn_fabric.Sysdeps.Counts.{str_eq-eq}
use ovn_fabric.Peer.Requests.{
  PeerFault, Item, arrived, broke, Request, first_fault, without_fault, without_first, wait, waited,
  next_item,
}
use ovn_fabric.Peer.Routing.{Peer, changed}
use ovn_fabric.Peer.Invariant.{
  IsProgress, Shape, waits_on, ended, read_response, read_fault, first_fault-append, Inv,
  changed-IsShaped, changed-requests, changed-pending, lookup-changed,
}

-- A request that is done, with its queue empty.
done-queue :
    (r s : Request)
    → Shape r
    → r.is_done ≡ true
    → s.final ≡ r.final
    → s.is_done ≡ true
    → (s.queue ≡ [])
    → Shape s
unfolding wait first_fault
done-queue r s (waits_on d f q) o final done empty = absurd (ground (arith, d, o))
done-queue r s (ended items (arrived m) d q p (k, f, w)) o final done empty =
    read_response m done empty k (final ∙ f) (ground (arith, done, final, f))
done-queue r s (ended items (broke e) d q p (f, w)) o final done empty =
    read_fault done empty (final ∙ f) (ground (arith, done, final, f, ap first_fault empty))
done-queue r s (read_response m d q k f w) o final done empty =
    read_response m done empty k (final ∙ f) (ground (arith, done, final, f))
done-queue r s (read_fault d q f w) o final done empty =
    read_fault done empty (final ∙ f) (ground (arith, done, final, f, ap first_fault empty))

-- An item is taken.
pub next_item-Shape : (r : Request) → Shape r → Shape (next_item r)
unfolding next_item without_first wait
next_item-Shape r (waits_on d f q) = waits_on d f (later r.queue q)
  where
    later : (items : List Item) → All IsProgress items → All IsProgress (without_first items)
    later [] h = tt
    later (i ∷ items) (h, hs) = hs
next_item-Shape r (ended [] last d q p k) =
    done-queue r _ (ended [] last d q p k) d refl d (ap without_first q)
next_item-Shape r (ended (i ∷ items) (arrived m) d q p (k, f, w)) =
    ended items (arrived m) d (ap without_first q) p.1 (k, f, ground (arith, d, f))
next_item-Shape r (ended (i ∷ items) (broke e) d q p (f, w)) =
    ended items (broke e) d (ap without_first q) p.1 (
      f,
      ground
          (arith, d, f, ap (λ l. first_fault (without_first l)) q, first_fault-append items e p.1),
    )
next_item-Shape r (read_response m d q k f w) =
    done-queue r _ (read_response m d q k f w) d refl d (ap without_first q)
next_item-Shape r (read_fault d q f w) =
    done-queue r _ (read_fault d q f w) d refl d (ap without_first q)

without_fault-append :
    (items : List Item) (e : PeerFault)
    → All IsProgress items
    → without_fault (items ++ (broke e ∷ [])) ≡ []
unfolding without_fault
without_fault-append [] e h = refl
without_fault-append (arrived m ∷ items) e (h, hs) = without_fault-append items e hs
without_fault-append (broke f ∷ items) e (h, hs) = absurd h

drained : Request → Request
drained r = record r { queue = without_fault r.queue }

-- A wait that comes to an end.
pub waited-Shape : (r : Request) → Shape r → Shape (waited r)
unfolding waited drained without_fault
waited-Shape r (waits_on d f q) =
    let same : r ≡ waited r = ground (arith, d) in subst Shape same (waits_on d f q)
waited-Shape r (ended items (arrived m) d q p (k, f, w)) =
    let same : r ≡ waited r = ground (arith, d, f) in
    subst Shape same (ended items (arrived m) d q p (k, f, w))
waited-Shape r (ended items (broke e) d q p (f, w)) =
    let same : drained r ≡ waited r = ground (arith, d, f) in
    subst Shape same (
      done-queue r (drained r) (ended items (broke e) d q p (f, w)) d refl d
        (ap without_fault q ∙ without_fault-append items e p))
waited-Shape r (read_response m d q k f w) =
    let same : r ≡ waited r = ground (arith, d, f) in subst Shape same (read_response m d q k f w)
waited-Shape r (read_fault d q f w) =
    let same : drained r ≡ waited r = ground (arith, d, f) in
    subst Shape same (done-queue r (drained r) (read_fault d q f w) d refl d (ap without_fault q))

pub next_item-done : (r : Request) → (next_item r).is_done ≡ r.is_done
unfolding next_item
next_item-done r = refl

pub waited-done : (r : Request) → (waited r).is_done ≡ r.is_done
unfolding waited
waited-done r = ground arith

-- A change of a request that leaves it done or not.
pub changed-Inv :
    (id : String) (f : Request → Request) (p : Peer)
    → ((r : Request) → Shape r → Shape (f r))
    → ((r : Request) → (f r).is_done ≡ r.is_done)
    → Inv p
    → Inv (changed id f p)
changed-Inv id f p g done h = record {
  shaped = changed-IsShaped id f p (λ r e. g r (h.shaped id r e)) h.shaped;
  running = λ j c. still j (subst (λ ids. contains ids j ≡ true) (changed-pending id f p) c);
}
  where
    still :
        (j : String)
        → contains p.pending j ≡ true
        → (r : Request) × (lookup j (changed id f p).requests ≡ some r) × (r.is_done ≡ false)
    still j c =
        let (r, g', d) = h.running j c in
        elim (Bool-cases (str_eq id j)) [
          | inl e ↦
              let own : lookup id p.requests ≡ some r =
                ap (λ i. lookup i p.requests) (str_eq-eq id j e) ∙ g' in
              (
                f r,
                ap (lookup j) (changed-requests id f p r own)
                    ∙ ground (arith, e, lookup-insert j id (f r) p.requests),
                done r ∙ d,
              )
          | inr e ↦ (r, lookup-changed j id f p e ∙ g', d)
        ]
