-- ===== src/Lib.antt =====
-- Models of programs of the repository, C programs for Linux that work together through pipes,
-- shared memory and sockets, and theorems about them.
--
-- Prelude: names of the libraries passed on, Boolean tests, lists and integers over native numbers.
-- `Int` has the 32-bit ints of C, `add_int` and `mul_int` wrapping around where C leaves the result
-- undefined.
--
-- Channel: lab06/channel/channel.h and channel.c. `Calls` has what `channel_produce` and
-- `channel_consume` do while they hold the mutex; `System` has processes that call them in any
-- order, a process being counted as waiting, or as woken and not yet back in the critical section;
-- `Delivery` proves what arrives. A length above CHANNEL_SIZE, which channel_produce does not
-- reject, is the outcome `overrun`, after which nothing is said.
--
-- Doubler: the loop of lab06/channel/ops-double-processor.c; it uses the channel only through the
-- blocks consumed and produced.
--
-- Messengers: lab07/poslancy/poslancy.c. The state is the locals of `main`; `handle` is the body of
-- the loop over the events, and what the system calls report is an argument of it. ERR ends the
-- process: `none`.
--
-- Chunks: lab08/lab/l8-1_server.c and l8-1_client.c. `Frame` has the datagrams, `Server` the loop
-- of `doServer`, `Client` the one of `doClient`. `Table` views the table of connections as a map
-- from addresses to the next number, `Serve` describes one datagram in those terms, and `Transfer`
-- a whole transfer, repeated datagrams included. An address is a number, as the code only compares
-- addresses. The numbers of chunks are ints. The client's loop has fuel for one round more than the
-- file has bytes; each round but the last takes at least one byte.
--
-- Sockets: lab07/l7/l7_common.h. `read` and `write` are parameters, functions of a state of the
-- outside world; fuel above the number of bytes to go is enough, as each round but the last
-- transfers at least one byte.
--
-- Napoleon: lab08/napoleon/napoleon.c. An adjutant goes from one critical section to the next, a
-- step each, and other adjutants may come between. `Stack` views the array of messages and its top
-- as a list, `Report` is about the divisions and the rows of the map, `Sections` about one section,
-- `Adjutants` about all the adjutants at once, `Orders` about Napoleon's choice. `sscanf` is a
-- parameter; coordinates are numbers once they are in range.
--
-- Cards: lab05/sop-cards/sop-cards.c. `Rounds` is about `game_server_work`, `Deck` about
-- `player_work`. What pipes report is an argument, a function of the player's number.
--
-- Lotto: lab05/sop-lotto/sop-lotto.c. `Draw` and `Compare` are about the functions of those names,
-- `Sums` about `totalisator_work`. `rand` is a function of the round, RAND_MAX a parameter. The
-- sums are ints, which wrap around.
--
-- Shop: lab06/bitronka/sop-shop.c. A worker's work on two shelves and the manager's look at them
-- are functions; `Night` has the workers and the manager as steps at the mutexes of the shelves,
-- which may be left behind by a worker who dies. `Holding` and `Exclusion` are about who has which
-- mutex, `Deaths` about the counting of the dead, `Shelves` about the products, `Moves` and
-- `Progress` about what keeps the night going. The short sections under mxSorted and mxDead are
-- part of the steps.
--
-- Factory: lab05/sop-factory/sop-factory.c, the loops of the three brigades.
--
-- Electors: lab07/prelab/sop-hre.c, the events on the sockets of clients in `do_server`. When a
-- connection has ended, the byte that the code uses is an argument, as the variable is not set.
-- `Votes` is about the electors' state, `Casting` about one vote.
--
-- Feud: lab07/aigen/aigen.c, the events on the sockets of clients. `Waiting` is about the table,
-- `Meeting` about what is sent.
--
-- Roulette: lab05/sop-roulette/sop-roulette.c. `Money` is about `player_work`, `Table` about the
-- rounds of `server_work`.
--
-- Deal: lab06/sop-cards/sop-cards.c. `Winners` is about the loop that finds the winning card,
-- `Drawing` about `draw_card`. The players' parts of a round between two barriers are arguments.
--
-- Pids: lab07/pidsumming/sop-server.c, the events on the sockets of clients.
--
-- Ship: lab05/sop-ship/sop-ship.c. `Discard` is about the card that a player passes on; `Table` has
-- all the players around the ring as steps, `Hands` and `Conservation` are about the cards in it.
--
-- Calculator: lab07/l7/l7-1_server.c, the function `calculate` on numbers; an operation that
-- overflows, undefined in C, is an outcome of its own.
--
-- Integral: lab06/calka/calka.c. The model has the sections under the two robust mutexes, each a
-- function of what `rand` gives; `System` has the processes at one shared memory as steps, deaths
-- included, `Members` is about the count of processes, `Totals` about the sums. Where a point falls
-- is an argument, as it is decided in floating point; N is not negative. Signed overflow, undefined
-- in C, wraps.
--
-- Routing: lab05/generated_harder/generated_harder.c. `Loading` is about `load_config` on lines
-- that `sscanf` has taken apart; `Network` has the government and the provinces as steps, `Flight`
-- the packets in the pipes, `Delivery` where they go; `Shutdown` has the provinces ending one after
-- the other. How many packets fit in a pipe is a parameter: a write to a full pipe waits, and so
-- does the province, which may be for ever when the routes lead around a cycle.
--
-- Letters: lab06/sop-1/sop-1.c, with ints for the counters and the bounds of the parts. `Counting`
-- is about a child, `Parts` about the bounds of the parts, `Partition` about the totals.
--
-- Cycle: lab05/sop-cycle/sop-cycle.c. The steps begin when every process has closed the ends that
-- it does not keep. `Tokens` counts the messages, `Places` and `Progress` are about who can go on.
--
-- Knights: lab05/prelab/sop-roncevaux.c, the function `child_work`. `Blows` is about what a knight
-- takes, `Strikes` about whom he strikes.
--
-- Flood: lab05/generated/generated.c. `Network` has the government and the provinces as steps,
-- `Spread` what a province writes, `Coverage` where a letter gets, `Settling` whether it comes to
-- rest.
--
-- Pipes: lab05/sop-cards/pipe-utils.h, which is the same in sop-lotto and sop-roulette but for a
-- function that sets a handler. `Ends` is about what stays open.
--
-- Not modelled: the set-up of sockets, memory, pipes and processes, signal handlers, printing, and
-- the earlier stages of each exercise (etap*.c, e1.c to e3.c).
pub mod Prelude
pub mod Channel
pub mod Doubler
pub mod Messengers
pub mod Chunks
pub mod Sockets
pub mod Napoleon
pub mod Cards
pub mod Lotto
pub mod Shop
pub mod Factory
pub mod Electors
pub mod Feud
pub mod Roulette
pub mod Deal
pub mod Pids
pub mod Ship
pub mod Calculator
pub mod Integral
pub mod Routing
pub mod Letters
pub mod Cycle
pub mod Knights
pub mod Flood
pub mod Pipes
