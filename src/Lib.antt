-- ===== src/Lib.antt =====
-- Verification of the backend of the recovery agent: a program that takes failed payments, decides with a
-- language model or a table how to recover each, lets a policy gate allow or refuse the action, executes
-- it, and keeps a hash-chained log.
--
-- Parts, and the files that model them:
--   Db/Enums, Db/Models, Db/Session: the enumerations and rows of app/db/enums.py and app/db/models.py,
--     and the tables of a session as lists, the newest row first.
--   Domain/Fsm: the guarded state machine of app/domain/fsm.py. Domain/Fsm/Graph compares it with
--     the transition table of docs/STATE_MACHINES.md.
--   Domain/Diagnosis, Domain/Strategies: the tables of app/domain/diagnosis.py and
--     app/domain/strategies.py. Domain/Strategies/Safety has their properties.
--   Policy/Config, Policy/Rules, Policy/Engine: the thresholds, the rules P01 to P14 (over the context of
--     Policy/Rules/Context) and evaluate of
--     app/policy. Policy/Rules/Bounds, Policy/Engine/Trace and Policy/Engine/Gate have the properties.
--   Risk/Engine: the score of app/risk/engine.py. Risk/Engine/Bounds has its properties.
--   Outside: what the program takes from code that is not its own, as one record of parameters without
--     laws: the hash with its JSON payload, the logarithm, random numbers, the wall clock, the language
--     model, and the Razorpay service, which may raise.
--   Work: a case at work, with its session, payment, customer, clock and simulator, and the actions on
--     it, which return or raise. Work/Keeps has one rule for each way to build an action, for relations
--     between the work before and after.
--   Services/Audit, Services/CaseService: app/services/audit.py and app/services/case_service.py.
--     Audit/Chain and Audit/Tamper have the properties of the hash chain.
--   Verification: app/verification/service.py.
--   Integrations/Simulated: app/integrations/simulated_gateway.py.
--   Executors, Executors/Actions: app/executors/actions.py. Executors/Rows and Executors/Keys
--     have the numbering of the action rows.
--   Agent/Decide: app/agent/decide.py. Agent/Decide/Laws says what it may decide.
--   Services/Pipeline: app/services/pipeline.py: Context builds what is decided upon, Escalation writes
--     the escalation rows, Step has one action for each branch of _step, Advance is advance_case.
--     Step/Stable, Step/Effects and Advance/Effects lift a relation that each of 17 elementary effects
--     keeps to an executor, a whole step and a whole run; Advance/Walks, Advance/Money, Advance/Chain
--     and Advance/Actions are four such relations. Step/Gauge, Step/Budget and Advance/Budget follow a
--     number that a strategy moves and the gate bounds; Step/Retries and Step/Contacts are the two
--     numbers. Step/Gate says what a step out of POLICY_CHECK means, Executors/Total, Step/Total and
--     Step/Returns when a step returns, and Advance/Ends where a run ends.
--   Services/Loading: load_case_full of app/services/pipeline.py and the write back of a case at work.
--   Services/Ingest: app/services/ingest.py. Payload has the events and their texts, Rows the merchant,
--     customer and payment rows. Effects, Capture, Parts and Payments lift what each part keeps of the
--     unique keys (Db/Tables), the deliveries seen, the numbers of the actions and the audit chains to a
--     delivery; Replay, SelfHeal and Customers have the properties.
--   Integrations/Razorpay: app/integrations/razorpay.py, over a client and a clock that give one answer and
--     two readings for each attempt. Breaker is the circuit breaker, Requests bounds the request loop.
--   Api: the routes of app/main.py that write, and the dashboard; Api/Views: the list of cases and the
--     detail of one. Webhooks, Decisions and Views/Lists have the properties.
--   Worker: build_deps, tick and the polling loop of app/worker.py. Frame says which tables advance_case
--     leaves alone, Ticks what a tick leaves, Starvation when it raises.
--   Batch/Baselines, Batch/Runs, Batch/Score, Batch/Report: compute_baselines, reset_db and the two phases
--     of run, the counts of _score and the report of app/batch/run_eval.py. Baselines/Laws compares the
--     baselines, Runs/Ends says what a run leaves to score, Report/Groups and Report/Clean what the report says of it.
--   Scripts/Dataset: scripts/generate_dataset.py. Tables has the constants, Counts the number of cases of
--     each scenario, Rows the customers, events and ground truth of a case, Cases the loops over them. The
--     ingestion and the pipeline are applied to what it generates in Cases/Agrees.
--   Scripts/Replay: scripts/replay_webhook.py, which sends a delivery into the ingestion or to the API.
--   Tests, Tests/Intake, Tests/Evaluation, Tests/Evidence: the theorems at concrete inputs. Tests/Samples
--     has the rows for them.
--
-- A function of the source is a function of the same name, a method that may raise an action. A call of
-- the pipeline goes through the agent, the gate and the executors in the order of the source: _step calls
-- decide_and_persist, evaluate and execute_for_strategy, and these write the session, the case and the
-- log in the same order as there.
--
-- Numbers: amounts are paise, times and ages seconds, confidences and probabilities ten-thousandths,
-- the components of the risk score whole numbers of 1/19710000000 of a point, of which the log gets
-- hundredths. A delay of the language model is absent, a whole number (a negative one stands as 0;
-- fractions are not modelled) or another value. Python integers do not overflow; a
-- subtraction that stops at 0 here is one that the source clamps with max(0, ...), the lowering of a
-- count of the generator, which Counts/Sums takes only from counts above 0, or one from the dataset's
-- start. Texts with numbers in them are lists of pieces, those of the dataset texts. The loop of
-- advance_case runs on the fuel MAX_STEPS, which is the bound that the source has itself; the request
-- loop runs on the attempts left, the polling loop and the replay on the number of rounds, the loop
-- that adjusts the counts on what is left to adjust; every other loop is over a list or over the two
-- attempts of the agent.
--
-- Not modelled: eval_report of app/main.py, which hands a stored report on; the rates and rupees of
-- the report and its row; the stable sort of the generated events; the frontend, the other scripts,
-- the migrations and the configuration, which are views, commands and input or output only; row locks
-- and concurrent transactions; updated_at and latencies; the prompt texts. A case that the worker
-- advances sees one reading of the clock, and what the simulator draws in a tick that raises is an
-- argument of the polling loop.
pub mod Prelude
pub mod Format
pub mod Result
pub mod Db
pub mod Domain
pub mod Risk
pub mod Policy
pub mod Outside
pub mod Work
pub mod Services
pub mod Verification
pub mod Integrations
pub mod Executors
pub mod Agent
pub mod Api
pub mod Worker
pub mod Batch
pub mod Scripts
pub mod Tests
