-- ===== src/Resolve/Node/Grows.antt =====
-- src/PafioResolve/Resolver.cpp, `ResolveNode`: a call leaves the nodes that were there as they
-- are, and adds nodes with all their dependencies resolved.
use mathlib.Core.List.{append_assoc, append-nil}
use spio.Prelude.{
  ℕ, Bytes, some, List, [], ◌∷◌, ◌++◌, Result, ok, or_throw, out_of_range, ◌≡◌, sym, arith, All,
  All-append, get_elem?,
}
use spio.Prelude.Indexed.{get_elem?-append, map-++}
use spio.Prelude.Action.{
  Outcome, returned, threw, cut_off, Action, attempt, from_result-eq-returned,
}
use spio.Resolve.Node.{Node, Progress, place, on_world, node_at}
use spio.Resolve.Node.Invariant.{keys, Edge, IsComplete}

-- Nodes are appended, and they are complete.
pub record Extends (old new : List Node) : Type 0 where
  pub more : List Node
  pub same : new ≡ old ++ more
  pub complete : All (IsComplete (keys new)) more

Edge-append :
    (ks more : List (Bytes × Bytes)) (f : Bytes) (id : Bytes)
    → Edge ks f id
    → Edge (ks ++ more) f id
Edge-append ks more f id e = record {
  index = e.index;
  other = e.other;
  at = get_elem?-append ks more e.index e.at;
  apart = e.apart;
}

All-imp {ℓ κ μ} :
    {A : Type ℓ} (P : A → Type κ) (Q : A → Type μ) (xs : List A)
    → ((x : A) → P x → Q x)
    → All P xs
    → All Q xs
All-imp P Q [] f h = tt
All-imp P Q (x ∷ xs) f h = (f x h.0, All-imp P Q xs f h.1)

pub keys-Extends :
    (old new : List Node)
    → Extends old new
    → (m : List (Bytes × Bytes)) × (keys new ≡ keys old ++ m)
keys-Extends old new x =
    (keys x.more, rw x.same (map-++ (λ n. (n.id, n.source_fingerprint)) old x.more))

pub Edge-Extends :
    (old new : List Node) (f : Bytes) (ids : List Bytes)
    → Extends old new
    → All (Edge (keys old) f) ids
    → All (Edge (keys new) f) ids
Edge-Extends old new f ids x h =
    let (m, e) = keys-Extends old new x in
    rw e (All-imp (Edge (keys old) f) _ ids (Edge-append (keys old) m f) h)

IsComplete-Extends :
    (old new : List Node)
    → Extends old new
    → (ns : List Node) → All (IsComplete (keys old)) ns
    → All (IsComplete (keys new)) ns
IsComplete-Extends old new x ns h =
    All-imp (IsComplete (keys old)) (IsComplete (keys new)) ns
      (λ n c. record {
        aliases = c.aliases;
        strict = c.strict;
        same_ids = c.same_ids;
        edges = Edge-Extends old new n.source_fingerprint n.dependencies x c.edges;
      })
      h

pub Extends-refl : (ns : List Node) → Extends ns ns
Extends-refl ns = record { more = []; same = sym (append-nil ns); complete = tt }

pub Extends-trans : (a b c : List Node) → Extends a b → Extends b c → Extends a c
Extends-trans a b c x y = record {
  more = x.more ++ y.more;
  same = rw (y.same, x.same) (append_assoc a x.more y.more);
  complete =
      All-append (IsComplete (keys c)) x.more y.more (IsComplete-Extends b c y x.more x.complete)
        y.complete;
}

pub attempt-eq-returned :
    {S A : Type 0} (look : S → Result A) (s : S) {a : A} {t : S}
    → attempt look s ≡ returned a t
    → (look s ≡ ok a) × (s ≡ t)
unfolding attempt
attempt-eq-returned look s h = from_result-eq-returned (look s) s h

-- A node that is read by its index.
pub node_at-eq-returned :
    {S : Type 0} (i : ℕ) (r : Progress S) {n : Node} {t : Progress S}
    → node_at i r ≡ returned n t
    → (get_elem? r.nodes i ≡ some n) × (r ≡ t)
unfolding node_at
node_at-eq-returned i r h =
    let (a, b) = attempt-eq-returned (λ r. or_throw (get_elem? r.nodes i) out_of_range) r h in
    (ground arith, b)

pub on_world-eq-returned :
    {S A : Type 0} (step : Action S A) (r : Progress S) {a : A} {t : Progress S}
    → on_world step r ≡ returned a t
    → (s : S) × (record r { world = s } ≡ t)
on_world-eq-returned step r h = go r (step r.world) h
  where
    go :
        {S A : Type 0} (r : Progress S) {a : A} {t : Progress S} (o : Outcome S A)
        → place r o ≡ returned a t
        → (s : S) × (record r { world = s } ≡ t)
    go r (returned b s) h = (s, cc)
    go r (threw e s) h = cc
    go r cut_off h = cc
