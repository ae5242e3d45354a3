-- ===== src/Exchange/Overlap.antt =====
-- Clients of project4_stockexchange/docker-deploy/matching-engine/server.cpp whose requests overlap.
use duke_ece.Prelude.{List, [], ◌∷◌}
use duke_ece.Exchange.Tables.{Server}
use duke_ece.Exchange.Requests.{Exchange}
use duke_ece.Exchange.Xml.{Xml}
use duke_ece.Exchange.Threads.{
  Job, finished, Process, serving, ended, Step, begins, finishes, overlaps, refuses_account,
  refuses_symbol, unreadable, Steps, stays, more,
}

-- The tables and the counter as they are committed.
abbrev pub committed : {xml : Xml} → Process xml → Exchange
committed (serving x open_job) = x
committed (ended x) = x

-- What jobs make of the exchange, one after another, from the last of the list on.
abbrev pub after_jobs : (xml : Xml) → Server → List (Job xml) → Exchange → Exchange
after_jobs xml server [] x = x
after_jobs xml server (job ∷ jobs) x = finished xml server job (after_jobs xml server jobs x)

-- The jobs that the steps finish, the last one first.
abbrev pub with_step :
    {xml : Xml} {server : Server} {p q : Process xml}
    → Step xml server p q
    → List (Job xml)
    → List (Job xml)
with_step (begins x job) jobs = jobs
with_step (finishes x job) jobs = job ∷ jobs
with_step (overlaps x job account es) jobs = jobs
with_step (refuses_account x account es id balance) jobs = jobs
with_step (refuses_symbol x account es name child) jobs = jobs
with_step (unreadable x open_job) jobs = jobs

abbrev pub completed :
    {xml : Xml} {server : Server} {p q : Process xml} → Steps xml server p q → List (Job xml)
completed (stays p) = []
completed (more p q r steps step) = with_step step (completed steps)
