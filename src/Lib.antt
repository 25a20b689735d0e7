-- ===== src/Lib.antt =====
-- Verification of firominer, a miner for Firo's ProgPoW.
--
-- The program has a farm (libethcore/Farm.cpp) of miners (libethcore/Miner.cpp), each with a thread
-- of its own (libdevcore/Worker.cpp), and a pool manager (libpoolprotocols/PoolManager.cpp) that
-- keeps a client connected to one of the configured pools. The client, for pools of the stratum
-- protocols libpoolprotocols/stratum/EthStratumClient.cpp, hands work packages to the manager, which
-- hands them to the farm; a solution of a miner goes through the farm's evaluation and the manager
-- to the client.
--
-- Base: names of the library, lists over the native numbers, Boolean tests.
-- Worker: the states of a worker and of its thread. One atomic access is one step, and the owner's
--   calls and the thread's steps come in any order.
-- Miner: work packages, the reasons for a pause, the turns of a sequential DAG load.
-- Farm: `Farm.start`, `Farm.stop`, `pause` and `resume`; Farm.Work is `setWork`; Farm.Proof is
--   `accountSolution` and `submitProofAsync`; Farm.Data is `collectData`; Farm.Calls is any sequence
--   of calls on a farm.
-- Pool: the manager and what it asks of its client; Pool.Connections has the calls on the list of
--   connections, Pool.Rotate `rotateConnect`, Pool.Handlers the handlers of the client, Pool.Lifecycle
--   `start`, `stop` and the timers, Pool.Events every event of the manager as a step.
-- Stratum: the client's connection; Stratum.Connect goes from `connect` to the first request,
--   Stratum.Disconnect ends a connection,
--   Stratum.Detection puts the two together, Stratum.Timer is `workloop_timer_elapsed`, Stratum.Pleas
--   keeps the times of unanswered requests, Stratum.Extranonce reads the extranonce and submits.
--   Stratum.Response is `processResponse`: Login, Replies, Notices and Settings have its branches,
--   Process puts them together, Phases, Steps and Refines compare it with the login of the protocols.
--   Stratum.Lines has the lines of the text that arrives, Stratum.Receive what is done with them,
--   Stratum.Send the queue of `send`.
-- Getwork: the client of a node, libpoolprotocols/getwork/EthGetworkClient.cpp; Getwork.Connect has
--   its connections and requests, Getwork.Read the HTTP response, Getwork.Response the answer in it,
--   Getwork.Events any sequence of its handlers.
-- Simulate: the simulation of a pool, libpoolprotocols/testing/SimulateClient.cpp.
-- Uri: the schemes and the decoding of libpoolprotocols/PoolURI.cpp.
-- Api: the API server, libapicore/ApiServer.cpp; Api.Values reads the members of a request,
--   Api.Authorize compares passwords, Api.Details has the statistics, Api.Methods and Api.Process
--   have `processRequest`, Api.Receive the text of a connection, Api.Server the sessions. Api.Kept
--   and Api.Effects say what a request does to the state, Api.Answers how it is answered.
-- Cpu: the miner on a CPU, libethash-cpu/CPUMiner.cpp, with the steps of its thread and the work
--   that is written meanwhile; Cpu.Search says what it searches and submits, Cpu.Found that it finds.
-- Cl: `workLoop` of the miner on an OpenCL device, libethash-cl/CLMiner.cpp, one turn of the loop
--   after another; Cl.Launches has the nonces of the kernels, Cl.Kernels the kernel of a new epoch.
-- Hex: hexadecimal text of libdevcore/CommonData.h and CommonData.cpp.
-- Tests: concrete inputs.
--
-- Numbers of a fixed width keep their wrap-around as a remainder. Loops are structural recursions;
-- `hex_digits`, `receive_lines` and `http_lines` run on fuel: the number that is printed, and the
-- length of the text, are enough of it. The random device, the
-- build, the devices, the temperatures, `boost::iequals` and the verification of a solution in
-- libcrypto are parameters. Handlers on one strand run one after another, each as one step. In
-- `setWork`, `pow` and `log2` are taken as exact.
--
-- A JSON message is what JsonCpp answers to the code's questions about it; a write through a null
-- pointer and an exception that nothing catches are outcomes of their own.
--
-- Not modelled: hash rates and difficulties, which are floating point; the regular expressions that
-- split a URI; conversions of JsonCpp that throw in the stratum client; the text of the page of the
-- API; the kernels, buffers and queues of a device, and the CUDA miner; the hardware monitors and the
-- command line.
pub mod Api
pub mod Base
pub mod Cl
pub mod Cpu
pub mod Farm
pub mod Getwork
pub mod Hex
pub mod Miner
pub mod Pool
pub mod Simulate
pub mod Stratum
pub mod Tests
pub mod Uri
pub mod Worker
