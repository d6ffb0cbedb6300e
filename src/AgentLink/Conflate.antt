-- ===== src/AgentLink/Conflate.antt =====
-- What a round of the writer sends.
use qcbridge.Prelude.{
  ◌≡◌, refl, ap, ◌∙◌, Option, some, List, [], ◌∷◌, ◌++◌, Eq, ◌==◌, map, if◌then◌else◌,
}
use mathlib.Core.List.{append_assoc, append-nil}
use qcbridge.Dict
use qcbridge.Dict.{get-put, keys, Distinct-put}
use qcbridge.KeySet.{Distinct}
use qcbridge.AgentLink.{Link, send, send_hot, take_batch, second}

-- What is queued between two rounds.
pub data Call {ℓ} (K : Type 0) (F : Type ℓ) : Type ℓ where
  send_call : F → Call K F
  hot_call : K → F → Call K F

module _ {ℓ} {K : Type 0} ⦃e : Eq K⦄ {F : Type ℓ} where
  unfoldable pub after_all : Link K F → List (Call K F) → Link K F
  after_all l [] = l
  after_all l (send_call f ∷ cs) = after_all (send l f) cs
  after_all l (hot_call key f ∷ cs) = after_all (send_hot l key f) cs

  -- The ordinary frames of the calls, in order.
  unfoldable pub sent_frames : List (Call K F) → List F
  sent_frames [] = []
  sent_frames (send_call f ∷ cs) = f ∷ sent_frames cs
  sent_frames (hot_call key f ∷ cs) = sent_frames cs

  -- The last hot frame of a key among the calls, or else `old`.
  unfoldable pub last_hot : K → Option F → List (Call K F) → Option F
  last_hot key old [] = old
  last_hot key old (send_call f ∷ cs) = last_hot key old cs
  last_hot key old (hot_call k f ∷ cs) = last_hot key (if k == key then some f else old) cs

  -- A round of the writer after any calls sends every ordinary frame in order, and after them one
  -- frame for each hot key that was written, the last one, if the hot keys differed at the start.
  pub take_batch_lem :
      (l : Link K F) (cs : List (Call K F)) (key : K)
      → Distinct (keys l.hot)
      → ((take_batch (after_all l cs)).1
          ≡ (l.frames ++ sent_frames cs) ++ map second (after_all l cs).hot)
        × Distinct (keys (after_all l cs).hot)
        × (Dict.get (after_all l cs).hot key ≡ last_hot key (Dict.get l.hot key) cs)
  unfolding take_batch after_all sent_frames last_hot send send_hot
  take_batch_lem l [] key d = (rw append-nil refl, d, refl)
  take_batch_lem l (send_call f ∷ cs) key d =
      let (batch, distinct, last) = take_batch_lem (send l f) cs key d in
      (
        batch
            ∙ ap (λ (fs : List F). fs ++ map second (after_all (send l f) cs).hot)
                (append_assoc l.frames (f ∷ []) (sent_frames cs)),
        distinct,
        last,
      )
  take_batch_lem l (hot_call k f ∷ cs) key d =
      let (batch, distinct, last) =
        take_batch_lem (send_hot l k f) cs key (Distinct-put l.hot k f d) in
      (batch, distinct, last ∙ ap (λ (o : Option F). last_hot key o cs) (get-put l.hot k f key))
