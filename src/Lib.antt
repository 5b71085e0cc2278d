-- ===== src/Lib.antt =====
-- falcon-plus: the services of the monitoring system that judge points and store them.
--
-- The program is a set of services. The agents report points to transfer, which hands them to the
-- judges and to graph; HBS tells the judges the strategies of each host; the judges push alarm events
-- to Redis, from where the alarm service delivers them. Modelled are, by file:
--   Base           the native numbers, lists, int64 (wrap-around written out), text as bytes, maps as
--                  association lists, and float64 as an interface with the order laws of IEEE 754
--   Utils          common/utils/tags.go, func.go and counter.go: SortedTags, PK and Counter (Tags), and
--                  DictedTagstring, SplitTagsString and ConunterToMetricAndTags (Dicted); the maps of
--                  lists that the services build (Grouped)
--   Judge/Model    common/model/judge.go, strategy.go, expression.go and event.go
--   Judge/History  modules/judge/store/linkedlist.go: PushFrontAndMaintain and HistoryData
--   Judge/Function modules/judge/store/func.go: the eight functions and ParseFuncFromString
--   Judge/Alarm    modules/judge/store/judge.go: sendEventIfNeed and what it sends
--   Judge/Match    modules/judge/store/judge.go and modules/judge/g/call.go: CheckStrategy,
--                  CheckExpression and the cache of strategies
--   Judge/Items    modules/judge/store/history.go, rpc/receiver.go (Send) and cron/cleaner.go
--   Nodata         modules/nodata/judge/judge_cron.go and status.go, with the front of the collector's list
--                  (collector.go) and AddMock (sender.go): the mocks of counters that stopped reporting
--   Graph          modules/graph/store (linkedlist.go, store.go, history.go), handleItems of
--                  modules/graph/api/graph.go, and modules/graph/g/utils.go: the waiting points;
--                  modules/graph/index (Index) and, of modules/graph/api/graph.go, Query (Query, Answer),
--                  GetLast, Info and Delete (Last)
--   Judge/Sync     modules/judge/cron/strategy.go: the maps rebuilt from the answers of HBS
--   Judge/Union    modules/judge/store/union_judge.go and UnionJudge of modules/judge/rpc/receiver.go:
--                  the combined alarms
--   Transfer       modules/transfer/receiver/rpc/rpc_transfer.go (Receive, Handler) and
--                  modules/transfer/sender/sender.go (Queues, Send), on common/model/metric.go, poly.go,
--                  tsdb.go and kafka.go (Model): what the agents report, and where it is sent
--   Hbs            modules/hbs/cache/strategies.go (ParentIds: Templates) and modules/hbs/rpc/hbs.go
--                  (Tpl2Strategies, CalcInheritStrategies, GetStrategies: Inherit; GetStrategiesOne:
--                  One), on common/model/template.go: the strategies of each host;
--                  modules/hbs/rpc/agent.go (ReportStatus) and modules/hbs/cache/agents.go (Agents)
--   Alarm          modules/alarm/cron/combiner.go (Combine), on model.go and modules/alarm/redi/msg_writer.go
--                  (Model): the messages of low priority that are combined; event_consumer.go and
--                  callback.go (Consume), block.go, get_block_monitor.go and modules/alarm/api/uic.go
--                  (Users): who an alarm is pushed to
--   Aggregator     modules/aggregator/cron/run.go (cleanParam and expressionValid: Valid; parse:
--                  Parse; WorkerRun: Run, and Worker for its sums), computer.go (Compute) and query.go
--                  (Worker), on modules/aggregator/g/items.go: expressions over the counters of a cluster
--   Polymetric     modules/polymetric/cron/poly_worker.go (GeneralPolyMethods and WorkerRun: Worker): what is
--                  made of the points of a cluster
--   the Tests of each part  runs on concrete inputs
--
-- A receiver calls Send, which finds the list of the counter, pushes the point and, if it is accepted,
-- calls Judge; Judge finds the strategies, computes their functions on the list and calls
-- sendEventIfNeed, which changes the last event of its id and what was sent. Each of these is a function
-- from the state (the record State and the maps) to the next state. RecvMetricValues of transfer collects
-- the reports (the record Received) and pushes what it collected to the queues (the record Queues); the
-- bounded lists and the rings that choose a queue are parameters (LimitedList, Cluster). GetStrategies
-- answers from the maps of HBS; a combiner takes what a queue of Redis holds and writes messages; the
-- aggregator makes one value of the last points of the hosts. A panic of the source (an index out of
-- range, a nil pointer) is none of the option Run, as is a send on the full Kafka channel of
-- transfer, which waits for the reader of the channel; so a result that is some is a run without a panic
-- and without such a wait. A method that holds a lock for its whole body is one step.
--
-- Handing a point to graph also tells its index (ReceiveItem), which a task writes to the database
-- (updateIndexIncr) and from which Query learns the type and the step of a counter before it merges the
-- waiting points with those of the rrd file. The alarm service takes an event, asks the api for its
-- action and its users, drops those that muted the metric, and writes to the senders or the combiners.
--
-- Loops are structural recursion on the list or on the number of rounds; only the loops of Query, which
-- go from a time to a time, have fuel (rounds): one round for each second between, and two more, which
-- is enough since each round adds a step of at least 1. The bounds are those of int, 64 bits, where the
-- source adds or subtracts.
--
-- Not modelled: the network, Redis, JSON (but for its refusal of NaN and the infinities), logging, and
-- MD5, which is a parameter, as are the answers of HBS and of the other judges (the record Env), and
-- what Redis, JSON and the service of the links answer to the combiners (the record Site),
-- strconv.ParseFloat, the hosts of a group and the last points that the aggregator asks for. The maps
-- of HBS, which database queries fill, are arguments; the rows that graph asks for, its rrd files (the
-- records Tables and Sources), the answers of the api and the texts of the alarms (the record Portal),
-- and the shares of a count that polymetric takes of float64 (the record Config) are parameters.
-- ReportStatus finds Redis as an argument (the record Redis). The order in which Go walks a map is
-- that of the association list. The cache of database rows in graph and the cache of a host's
-- strategies in the judge do not expire here. The agent, the api and the gateway are not modelled, nor
-- are the texts of the alarms, the rrd files and the strategies of polymetric.
pub mod Base
pub mod Utils
pub mod Judge
pub mod Hbs
pub mod Nodata
pub mod Transfer
pub mod Alarm
pub mod Aggregator
pub mod Graph
pub mod Polymetric
