-- ===== src/Stream/Decoder/Lifecycle.antt =====
-- The life of one attachment as the markers of its attempt tell it, and the decoder's part in it.
use terminal_redeemer.Base.{
  ◌≡◌, refl, sym, ap, subst, by_test, ◌∙◌, ◌≢◌, false, List, [], ◌∷◌, ◌++◌, Text, same, arith,
  if◌then◌else◌,
}
use mathlib.Core.List.{append_assoc}
use terminal_redeemer.Stream.Decoder.{AttachmentOutputDecoder, ready, detached, failed, notice}

pub data Life : Type 0 where
  connecting attached over : Life

-- The end of an attachment that was never ready is a failure, also where it says detached.
unfoldable pub ending : Life → Text → Text
ending connecting event = if same event detached then failed else event
ending _ event = event

unfoldable pub own : Life → Text → Life × List Text
unfolding ending
own over event = (over, [])
own connecting event =
    if same event ready then (attached, ready ∷ []) else (over, ending connecting event ∷ [])
own attached event = if same event ready then (attached, []) else (over, ending attached event ∷ [])

-- A marker of another attempt says nothing.
unfoldable pub observe : Text → Life → Text × Text → Life × List Text
unfolding own
observe attempt life (token, event) = if same token attempt then own life event else (life, [])

unfoldable pub follow : Text → Life → List (Text × Text) → Life × List Text
unfolding observe
follow attempt life [] = (life, [])
follow attempt life (m ∷ ms) =
    let next = observe attempt life m in
    let rest = follow attempt next.0 ms in (rest.0, next.1 ++ rest.1)

abbrev pub life_of : AttachmentOutputDecoder → Life
life_of d = if d.finished then over else if d.ready then attached else connecting

pub notice-observe :
    (d : AttachmentOutputDecoder) (m : Text × Text)
    → (life_of (notice d m).0 ≡ (observe d.attempt (life_of d) m).0)
      × ((notice d m).1 ≡ (observe d.attempt (life_of d) m).1)
      × ((notice d m).0.attempt ≡ d.attempt)
unfolding notice observe own ending
notice-observe d (token, event) = (ground arith, ground arith, ground arith)

pub follow-append :
    (attempt : Text) (life : Life) (ms ns : List (Text × Text))
    → (follow attempt (follow attempt life ms).0 ns).0 ≡ (follow attempt life (ms ++ ns)).0
unfolding follow
follow-append attempt life [] ns = refl
follow-append attempt life (m ∷ ms) ns = follow-append attempt (observe attempt life m).0 ms ns

pub follow_events-append :
    (attempt : Text) (life : Life) (ms ns : List (Text × Text))
    → (follow attempt life ms).1 ++ (follow attempt (follow attempt life ms).0 ns).1
      ≡ (follow attempt life (ms ++ ns)).1
unfolding follow
follow_events-append attempt life [] ns = refl
follow_events-append attempt life (m ∷ ms) ns =
    append_assoc (observe attempt life m).1 _ _
    ∙ ap (λ t. (observe attempt life m).1 ++ t)
        (follow_events-append attempt (observe attempt life m).0 ms ns)

-- What an attachment can report from a point of its life on: readiness once at most, and one end at
-- most, which is the last and is no detachment without readiness.
pub data Reports : Life → List Text → Type 0 where
  silent : (l : Life) → Reports l []
  gets_ready : (es : List Text) → Reports attached es → Reports connecting (ready ∷ es)
  ends : (e : Text) → e ≢ ready → Reports attached (e ∷ [])
  fails : (e : Text) → e ≢ ready → e ≢ detached → Reports connecting (e ∷ [])

silent_over : {l : Life} {es : List Text} → Reports l es → l ≡ over → es ≡ []
silent_over (silent _) q = refl
silent_over (gets_ready _ _) q = absurd (cc)
silent_over (ends _ _) q = absurd (cc)
silent_over (fails _ _ _) q = absurd (cc)

over_silent : (es : List Text) → Reports over es → es ≡ []
over_silent es r = silent_over r refl

ending-ne-ready : (event : Text) → same event ready ≡ false → ending connecting event ≢ ready
unfolding ending
ending-ne-ready event h k = ground (arith, failed_is, k)
  where
    failed_is : failed ≢ ready
    failed_is e = cc

ending-ne-detached : (event : Text) → ending connecting event ≢ detached
unfolding ending
ending-ne-detached event k = ground (arith, failed_is, k)
  where
    failed_is : failed ≢ detached
    failed_is e = cc

event-ne-ready : (event : Text) → same event ready ≡ false → event ≢ ready
event-ne-ready event h e = ground (arith, h, e)

own-Reports :
    (life : Life) (event : Text) (es : List Text)
    → Reports (own life event).0 es
    → Reports life ((own life event).1 ++ es)
unfolding own
own-Reports over event es r = r
own-Reports connecting event es r =
    by_test (λ (x : Life × List Text). Reports x.0 es → Reports connecting (x.1 ++ es))
      (same event ready) (attached, ready ∷ []) (over, ending connecting event ∷ [])
      (λ _ q. gets_ready es q)
      (λ t q.
        subst (λ fs. Reports connecting (ending connecting event ∷ fs)) (sym (over_silent es q))
          (fails (ending connecting event) (ending-ne-ready event t) (ending-ne-detached event)))
      r
own-Reports attached event es r =
    by_test (λ (x : Life × List Text). Reports x.0 es → Reports attached (x.1 ++ es))
      (same event ready) (attached, []) (over, ending attached event ∷ []) (λ _ q. q)
      (λ t q.
        subst (λ fs. Reports attached (event ∷ fs)) (sym (over_silent es q))
          (ends event (event-ne-ready event t)))
      r

observe-Reports :
    (attempt : Text) (life : Life) (m : Text × Text) (es : List Text)
    → Reports (observe attempt life m).0 es
    → Reports life ((observe attempt life m).1 ++ es)
unfolding observe
observe-Reports attempt life (token, event) es r =
    by_test (λ (x : Life × List Text). Reports x.0 es → Reports life (x.1 ++ es))
      (same token attempt) (own life event) (life, []) (λ _. own-Reports life event es) (λ _ q. q) r

pub follow-Reports :
    (attempt : Text) (life : Life) (ms : List (Text × Text))
    → Reports life (follow attempt life ms).1
unfolding follow
follow-Reports attempt life [] = silent life
follow-Reports attempt life (m ∷ ms) =
    observe-Reports attempt life m _ (follow-Reports attempt (observe attempt life m).0 ms)
