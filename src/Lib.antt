-- ===== src/Lib.antt =====
-- Account keeping and risk checks of the trading framework.
--
-- A strategy and the trading engine each hold an account (src/account/AccBase) and risk limits (src/risk).
-- Before an order is sent, the limits are checked against the account's positions; the order, its
-- cancels and trades, and every price change come back as callbacks that update the account.
--
--   Prelude          numbers, tests, integers and maps that the other modules share
--   Double           C++ double as an abstract type with the operations that the code uses
--   TradeBase        instruments, orders and messages (src/include/ATStructure.h)
--   TradeBase/Info   src/common/CTradeBaseInfo: the table of instruments; TradeBase/Names,
--                    TradeBase/Meant and TradeBase/Sound are about it, TradeBase/Exchange has
--                    the exchanges' codes
--   Account/Codes    the codes of src/include/ATConstants.h
--   Account/Vol      src/account/UnitVol: the volumes of an instrument or product
--   Account/Amt      src/account/UnitAmt: amounts; Account/Pnl and Account/Px: UnitPnl and UnitPx
--   Account/Mods     src/account/ModPrd and ModAcc: the summaries
--   Account/Instr    src/account/ModInstr: an instrument and the handlers of its events
--   Account/Base     src/account/AccBase: registration, callbacks, the change of the day
--   Risk/Instr       src/risk/RiskInstr and RiskInstrStg: the checks of one instrument
--   Risk/Conf        src/risk/ConfUtil and the init of RiskInstr, RiskInstrStg, RiskPrd and RiskAcc:
--                    the limits from the configuration, whose JSON values are a parameter
--   Risk/Summary     src/risk/RiskPrd and RiskAcc: the checks of a product and of the account
--   Risk/Limits, Risk/Intensity, Risk/Exposure   what the checks let through
--   Risk/InstrTop, Risk/SelfTrade   src/risk/RiskInstrTop: the engine's checks of an instrument,
--                    which keep its own orders from trading with each other
--   Risk/Kept        what the parts of both checks let through, stated apart from the code
--   Risk/Top         src/risk/RiskTop: the engine's registration, check and callbacks
--   Risk/Stg         src/risk/RiskStg: a strategy's risk management, its callbacks and day change
--   Risk/Gate        src/risk/RiskStg: its registration and its check, which composes the others
--   Td/Helper        src/td/ITDHelper: the tracks of the orders that a client has sent
--   Td/Fake, Td/Median   src/td/CTDHelperFake: the market that the replay simulates (child modules:
--                    its calls, one auction, and what the two sides know of each other)
--   Td/Engine        src/td/ITDEngine: the tracks of requests and the answers that are written from
--                    them, and how a client of src/td/CTDHelperComm gets its tracks back
--   Td/Ctp           src/td/CTDEngineCtp: the orders and cancels that an engine takes and the
--                    trades that are reported to it
--   Td/IdQueue       src/td/ITDEngine.h: the filter of repeated messages
--   Td/OrderRtn      the states of an order (src/include/ATConstants.h)
--   Bar/Time, Bar/Spans   src/bar/BarHelper, and the hours of the products (src/bar/BarMaker)
--   Bar/Bar2         src/bar/Bar2: one bar
--   Bar/Generate     src/bar/BarMaker: the bars of a day; Bar/Cut and Bar/Whole are about them
--   Bar/Maker        src/bar/BarMaker: ticks, the end of a run and the reader; Bar/Ticks and
--                    Bar/Reader are about them
--   Io/Queue         src/io/CMemQueue.h: the ring buffer between processes
--   Io/Page          src/io/ioprotocol.h, CIOBase, CRawIOWriter and CRawIOReader: the pages in which
--                    one process writes messages and others read them (child modules: the two
--                    sides, what they do to the messages, and their interleavings)
--   HashTable        src/utility/CHashTable.h: the table of fixed size
--   Tests            concrete inputs for the theorems
--
-- Methods are functions from the old state to the new one, named in snake_case after the
-- source's. The maps are association lists; a pointer into a map is the key, and a method that
-- goes through a null or dangling pointer has the result none. The source's int is an unbounded
-- integer here, but where a long is cut to one; the counters of the ring buffer have 64 bits. The inner loop that makes bars runs on
-- fuel, of which 86402 turns, one for each second of a day, are enough. A call of the page's writer calls
-- itself at most once and one of its reader once for each page that follows; the loop that registers
-- an instrument turns at most twice: each is on fuel of which that is enough. All other recursion is
-- over maps, lists and counts. The hash of a name (MurmurHash2) and the table of instruments are
-- parameters of the account, with IsSound as what is relied on.
--
-- Not modelled: files and JSON forms, log lines, the registry and the shared memory of the queues,
-- the loop of the trading engine, and the calls between the front ends and the exchanges' libraries,
-- what these return being a parameter.
pub mod Prelude
pub mod Double
pub mod TradeBase
pub mod Account
pub mod Risk
pub mod Td
pub mod Io
pub mod Bar
pub mod HashTable
pub mod Tests
