-- ===== src/Client/Moved.antt =====
-- How an engine comes from one state to another while a client talks to it.
use conduit_client_python.Prelude.{ℕ}
use conduit_client_python.Wire.{Request}
use conduit_client_python.Client.{Engine}

module _ (E : Engine) where
  -- By answers, readings of the clock, and sleeps.
  pub data Moved (s : E.State) : E.State → Type 0 where
    stays : Moved s s
    answers :
        {t : E.State} (r : Request) (timeout : ℕ) → Moved s t → Moved s (E.answer r timeout t).1
    reads : {t : E.State} → Moved s t → Moved s (E.monotonic t).1
    sleeps : {t : E.State} (d : ℕ) → Moved s t → Moved s (E.sleep d t).1

  pub Moved-trans : {s t u : E.State} → Moved s t → Moved t u → Moved s u
  Moved-trans before stays = before
  Moved-trans before (answers r timeout more) = answers r timeout (Moved-trans before more)
  Moved-trans before (reads more) = reads (Moved-trans before more)
  Moved-trans before (sleeps d more) = sleeps d (Moved-trans before more)

  -- What no answer, no reading and no sleep ends.
  pub record IsLasting (P : E.State → Type 0) : Type 0 where
    pub answered : (r : Request) (timeout : ℕ) (s : E.State) → P s → P (E.answer r timeout s).1
    pub read : (s : E.State) → P s → P (E.monotonic s).1
    pub slept : (d : ℕ) (s : E.State) → P s → P (E.sleep d s).1

  pub lasting : (P : E.State → Type 0) → IsLasting P → {s t : E.State} → Moved s t → P s → P t
  lasting P lasts stays h = h
  lasting P lasts (answers r timeout more) h = lasts.answered r timeout _ (lasting P lasts more h)
  lasting P lasts (reads more) h = lasts.read _ (lasting P lasts more h)
  lasting P lasts (sleeps d more) h = lasts.slept d _ (lasting P lasts more h)
