-- ===== src/Lib.antt =====
-- LVHVBox: the services and clients around the box that supplies a detector station with low and
-- high voltage. The Python services talk to the readout controllers (ROCs) over an RS485 bus, to the
-- supply server over TCP, and to each other over HTTP.
--
-- Rs485 models rs485-server/rs485.py. The modules below it:
--   Fcs           `fcs16`, the frame check sequence, and what changes it detects.
--   Frame         `frame_bytes` and the unescaping loop of `Packet.decode`.
--   Packet        `Packet`: `encode`, `decode` and `scalar_result`.
--   Stream        `FrameStream.feed`: packets out of a noisy byte stream.
--   Session       `BusSession`: transaction numbers and holdoff, kept in a file over restarts.
--   Exchange      `PiBus._exchange`: one request on the bus, and the wait for its response.
-- An exchange encodes its request by Packet, takes the transaction number that a session reserved,
-- and gives what it reads to a Stream, whose packets it scans.
--
-- FairQueue models rs485-server/fair_queue.py, the admission of four clients to the bus: the queue
-- and its steps in FairQueue, the deques in FairQueue/Lanes, the invariant in FairQueue/Capacity, the
-- round robin in FairQueue/Fairness. Every method of the queue holds one condition variable, so each
-- is one atomic step and the threads are the order of the steps.
--
-- RocMonitor models roc-temperature-monitor/roc_temperature_monitor.py, which reads the panels'
-- temperatures through the bus server and may switch the supply off:
--   RocMonitor    `PanelState` and `Monitor` with its methods.
--   Notify        `notify`; Batches is about the messages it makes.
--   Cycle         `cycle`, one round. Its result is what it did and how it ended.
--   Saved         `restore` and `save`.
--   Supply        `LVHVClient`, over Lvhv.
--   Streak        the count of high samples against the history.
--   Commands, Protection, Known, Returns   about a round: its command to switch off, and its return.
--
-- NetworkWatch models network-watch/network-watch.py: the loop of `main`, which switches the local
-- supply off after an outage of the network as long as the grace period. NetworkWatch/Outage and
-- NetworkWatch/Command are about when it does.
--
-- I2cAlerts models i2c-sensor-alerts/i2c-sensor-alerts.py, which alerts on the enclosure's temperature,
-- humidity and dew point and may switch the supplies off. Its global variables are `State`, its calls
-- a small monad (Monad) that keeps what was sent; I2cAlerts has the functions, Effects, Temperature,
-- Shutdown, Silence and Escape are about a round.
--
-- Lvhv models common/lvhv_protocol.py and the constants of common/lvhv_protocol_generated.py: Words the
-- little-endian numbers, Frame the layout of a message as blocks of words, Message `encode_message` and
-- `decode_message`, which put the conversions of `struct` between, Socket the receipt of a message.
--
-- Discovery models discovery_history.py, power_on_discovery.py and `run_discovery` of rs485_server.py
-- in rs485-server: History the expected panels and the queue of warnings, PowerOn the schedule of a
-- scan, Run one scan and its record. The scan itself is `RS485.discover`, which Rs485/Bus models over
-- the exchange, with the reads of `PiBus`, `drain_uart`, `recovery`, `panel_id` and, in Telemetry, `read`.
--
-- Server models the request handler of rs485-server/rs485_server.py: from a parsed request to the
-- operation that it asks for and the statuses of its responses. AlarmPolicy models common/alarm_policy.py,
-- the validation of the limits that the monitors share.
--
-- How the code is read. Bytes are natural numbers with the hypothesis that they are below 256,
-- where a theorem needs it; 16-bit fields are written with `% 2 ^ 16`. Clock readings are whole
-- ticks of a monotonic clock. An exception is a value of `Error`, and `Result` is what a call
-- returns. Loops over a byte sequence are structural; only `chunks` of Discovery takes a count, the
-- length of its list. The device at the other end of the bus is an argument: how each call on the
-- UART ends, an interruption included, and what each read returns, so every behaviour of the line
-- is covered, but that lowering it is taken to succeed. The lock file is overwritten in place; its
-- write is taken to complete, and `flock` keeps a second process out; both are the system's. A
-- ticket of the queue, an `object()` in the code, is a number that is never used twice. A round of
-- the monitor takes all that the supply, the panels, the clock, the stop event and the notifier do
-- as one record of inputs. Temperatures and voltages are only compared, so each is its place in the
-- order of the finite floats; the lengths of formatted texts are arguments. A reading of the
-- enclosure that is not a number, a NaN included, is `none`. A value in a message of the supply
-- server is a number that stands for it, and the conversions of `struct` between values and words
-- are a parameter, of which only is assumed that what it packs fits its format. A socket is the
-- bytes that its peer sends and the arrivals that deliver them; each round of `recv_exact` takes
-- one arrival. A recipient of a discovery warning is the hash that stands for it, `uuid4` is an
-- argument, and the history file is saved whole or not at all. The server's responses are the
-- statuses that are begun and what becomes of each write.
--
-- Not modelled: the tables of rules and the conversions of rs485.py, which are data and evaluated text;
-- its `preview`; the HTTP protocol, JSON and the command lines; the loading of the discovery history;
-- HTTP and notification clients, sockets, signals and logging, which are the system's or the libraries';
-- the other monitors and the clients; the firmware in C; vendored drivers and plots.
pub mod Prelude
pub mod Rs485
pub mod FairQueue
pub mod RocMonitor
pub mod NetworkWatch
pub mod I2cAlerts
pub mod Discovery
pub mod AlarmPolicy
pub mod Server
pub mod Lvhv
