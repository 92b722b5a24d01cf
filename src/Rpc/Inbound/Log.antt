-- ===== src/Rpc/Inbound/Log.antt =====
-- internal/jsonrpc/conn.go: the order in which the handler is called.
use kotlsp.Prelude.{ℕ, suc, ◌+◌, ◌≤◌, ◌≡◌, refl, sym, ap, List, [], ◌∷◌, ◌++◌, if◌then◌else◌, arith}
use kotlsp.Rpc.{Message}
use kotlsp.Rpc.Inbound.{InboundRequest, Worker, Entry, handled, begun}
use kotlsp.Rpc.Queue.{QueuedNotification}

-- The notifications that are handled.
abbrev pub count_handled : List Entry → ℕ
count_handled [] = 0
count_handled (handled c ∷ log) = suc (count_handled log)
count_handled (begun m c ∷ log) = count_handled log

-- Behind so many handled notifications, each notification is handled in its turn, none left out, and
-- each request is started behind as many as its channel says.
abbrev pub IsOrdered : ℕ → List Entry → Type 0
IsOrdered n [] = Unit
IsOrdered n (handled c ∷ log) = (c ≡ suc n) × IsOrdered (suc n) log
IsOrdered n (begun m after ∷ log) = (after ≤ n) × IsOrdered n log

pub count_handled-handled :
    (log : List Entry) (c : ℕ) → count_handled (log ++ (handled c ∷ [])) ≡ suc (count_handled log)
count_handled-handled [] c = refl
count_handled-handled (handled d ∷ log) c = ap suc (count_handled-handled log c)
count_handled-handled (begun r d ∷ log) c = count_handled-handled log c

pub count_handled-begun :
    (log : List Entry) (m : Message) (c : ℕ)
    → count_handled (log ++ (begun m c ∷ [])) ≡ count_handled log
count_handled-begun [] m c = refl
count_handled-begun (handled d ∷ log) m c = ap suc (count_handled-begun log m c)
count_handled-begun (begun r d ∷ log) m c = count_handled-begun log m c

pub IsOrdered-handled :
    (n : ℕ) (log : List Entry) (c : ℕ)
    → IsOrdered n log
    → c ≡ suc (n + count_handled log)
    → IsOrdered n (log ++ (handled c ∷ []))
IsOrdered-handled n [] c h e = (omega arith, tt)
IsOrdered-handled n (handled d ∷ log) c (k, h) e =
    (k, IsOrdered-handled (suc n) log c h (omega arith))
IsOrdered-handled n (begun r d ∷ log) c (l, h) e = (l, IsOrdered-handled n log c h e)

pub IsOrdered-begun :
    (n : ℕ) (log : List Entry) (m : Message) (after : ℕ)
    → IsOrdered n log
    → after ≤ n + count_handled log
    → IsOrdered n (log ++ (begun m after ∷ []))
IsOrdered-begun n [] m after h l = (omega arith, tt)
IsOrdered-begun n (handled d ∷ log) m after (k, h) l =
    (k, IsOrdered-begun (suc n) log m after h (omega arith))
IsOrdered-begun n (begun r d ∷ log) m after (k, h) l = (k, IsOrdered-begun n log m after h l)

-- The channels of the notifications in the queue follow one another up to the last that was made.
abbrev pub Follow : ℕ → List QueuedNotification → ℕ → Type 0
Follow k [] made = k ≡ made
Follow k (n ∷ ns) made = (n.done ≡ suc k) × Follow (suc k) ns made

pub Follow-append :
    (k : ℕ) (ns : List QueuedNotification) (made : ℕ) (m : Message)
    → Follow k ns made
    → Follow k (ns ++ (record { message = m; done = suc made } ∷ [])) (suc made)
Follow-append k [] made m h = (ap suc (sym h), ap suc h)
Follow-append k (n ∷ ns) made m (e, h) = (e, Follow-append (suc k) ns made m h)

abbrev pub live_job : InboundRequest → ℕ
live_job r = if r.cancelled then 0 else 1

abbrev pub live_worker : Worker → ℕ
live_worker w = live_job w.request
