-- ===== src/Client/Runtime/Order.antt =====
-- client/src/ClientRuntime.cpp: the order of the calls and of the signals between the two threads.
use multilife.Prelude.{◌≡◌, refl, sym, ◌∙◌, ap, List, ◌++◌, append_assoc, append-nil}
use multilife.Client.Network.{Effect}
use multilife.Client.Runtime.{
  Call, Runtime, Step, posted, performed, served, delivered, quit, Steps, still, next,
}

Step-order :
    (r : Runtime) (cs ds : List Call) (es fs : List Effect) (t : Runtime)
    → Step r cs ds es fs t
    → (r.calls ++ cs ≡ ds ++ t.calls) × (r.signals ++ es ≡ fs ++ t.signals)
Step-order r cs ds es fs t (posted call) = (refl, append-nil r.signals)
Step-order r cs ds es fs t (performed udp tcp call rest on e) = (append-nil r.calls ∙ e, refl)
Step-order r cs ds es fs t (served handler on) = (append-nil r.calls, refl)
Step-order r cs ds es fs t (delivered signal rest e) =
    (append-nil r.calls, append-nil r.signals ∙ e)
Step-order r cs ds es fs t quit = (append-nil r.calls, append-nil r.signals)

-- What waited and came in is what went out and waits still.
chain {ℓ} :
    {A : Type ℓ} (w cs ds v cs' ds' u : List A)
    → w ++ cs ≡ ds ++ v
    → v ++ cs' ≡ ds' ++ u
    → w ++ (cs ++ cs') ≡ (ds ++ ds') ++ u
chain w cs ds v cs' ds' u e f =
    sym (append_assoc w cs cs')
    ∙ (ap (λ (l : List _). l ++ cs') e
        ∙ (append_assoc ds v cs' ∙ (ap (λ (l : List _). ds ++ l) f ∙ sym (append_assoc ds ds' u))))

-- Whatever the two threads do, and in whatever order: the calls that were performed, followed by those
-- that still wait, are those that waited at first, followed by those that were made, in order; and so
-- for the signals that were delivered and emitted.
pub Steps-order :
    (r : Runtime) (cs ds : List Call) (es fs : List Effect) (t : Runtime)
    → Steps r cs ds es fs t
    → (r.calls ++ cs ≡ ds ++ t.calls) × (r.signals ++ es ≡ fs ++ t.signals)
Steps-order r cs ds es fs t still = (append-nil r.calls, append-nil r.signals)
Steps-order r cs ds es fs t
      (next {cs = cs0} {cs' = cs1} {ds = ds0} {ds' = ds1} {es = es0} {es' = es1} {fs = fs0}
        {fs' = fs1} {s = s} ss st) =
    let (a, b) = Steps-order r cs0 ds0 es0 fs0 s ss in
    let (c, d) = Step-order s cs1 ds1 es1 fs1 t st in
    (
      chain r.calls cs0 ds0 s.calls cs1 ds1 t.calls a c,
      chain r.signals es0 fs0 s.signals es1 fs1 t.signals b d,
    )
