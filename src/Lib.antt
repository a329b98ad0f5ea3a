-- ===== src/Lib.antt =====
-- Crossbook: order books kept from exchange feeds, and the evidence that they are right.
--
-- A feed (include/crossbook/feed.hpp) hands each frame to a venue decoder, asks a sequence tracker
-- (sequence.hpp) whether the update continues the stream, applies the levels to a book (book.hpp),
-- trims the book to the subscribed depth, compares the book's checksum (checksum.hpp) with the
-- venue's, and records what disagrees in a divergence log (divergence.hpp). When it can no longer
-- vouch for the book it asks for a new snapshot. Prices and quantities are int64_t mantissas, which
-- are read from and written to decimal text exactly (fixed.hpp). All paths below are under
-- include/crossbook/ of the repository.
--
-- Common: lists, Boolean tests and integers over the native numbers, shared by all parts.
-- Types: types.hpp. A Price and a Qty are the one int64_t that each holds.
-- Fixed: fixed.hpp. Fixed has the formatter, Fixed.Parse the parser and the guard of canonical
-- spelling. Fixed.Digits is the value of a digit string; Fixed.Token has Kraken's transformation of
-- a text; the theorems on the parser are in Fixed.Parse.RoundTrip and Fixed.Parse.Canonical.
-- Sequence: sequence.hpp. `on_update` and its three policies; Sequence.Continuity states the
-- contracts of the venues, Sequence.Stream and Sequence.Coverage are about whole streams.
-- Divergence: divergence.hpp.
-- Venue: venue.hpp, the normalised message that a decoder gives.
-- Book: book.hpp. Book.Ladder is the specification of one side of a book: its levels in book order
-- and the effect of one update. Book.Visit holds the interface that `BasicL2Book` uses of its side
-- containers (`SideImpl`) and the laws that make a container an implementation of the ladder
-- (`IsSideImpl`). Book.Map is `MapSide`, Book.Map.Refines its laws. Book.Array is `ArraySide`; its
-- children have the order of the slots and the range of the window (Order), the ladder that a side
-- stands for and the invariant (Valid, over Walk, Merge, Count and Spill), the visitor loop (Loop, over
-- Seek), one slot's update (Slot, Insert), the rebuild (Place, Refill, Outside, Rebuild), `apply` as a
-- whole (Update), the laws (Refines) and the trigger of the rebuild (Hysteresis). Book.L2 is
-- `BasicL2Book` over any container; Book.L2.Update, TrimLoop and Top use nothing of the container but
-- its laws, and Book.L2.Agree compares `ArrayBook` with `MapBook` (over Act, Alike and Calls).
-- Execution: execution.hpp, what a book would fill and at which price; Execution.Cost is about
-- `cost_to_trade`, whose sweep is in Execution.Filling, and Execution.Size about `executable_size`, whose
-- limit price is in Execution.Limit and whose sweep in Execution.Within.
-- Checksum: checksum.hpp. The slice-by-8 loop and the tables are executable; Checksum.Payload
-- relates the bytes that are written to Kraken's description of them.
-- Feed: feed.hpp. Feed.State has the class's members, Feed.Step the steps that its methods share, and
-- Feed.Handle the methods. `handle` is split at its decoder: `handle_message` is all that follows. The
-- decoder is a parameter, a state and a function of it and the frame, and the side container of the
-- book is one too. Feed.Rule has the rules that the feed exists for.
-- L3: l3.hpp, the order-by-order book. L3 has the state and the calls that change it, L3.Query the
-- lookups, and L3.Table the hash table from order ids to references, whose children have where a probe
-- stops (Probe), the invariant (Valid), one write (Write), the rehash (Grow) and the table as a map
-- (Laws). L3.Spec is the abstract book: the resting orders in time priority. Links, Entries and Queues
-- describe a queue, the level maps and what both keep of the queues; LinkBack and Append, Unlink and
-- Leave, Requeue and Resize are the steps that change a queue (Summary has what they do to its level),
-- Allocate, Enter and Release those that change the arena and the table; Valid has the invariant, Lookup what the table leads to, Commands and Refines
-- one call, Steps whole runs, Aggregates the sums at one price, and Lookups the lookups.
-- Net: net/ws_frame.hpp. Net.Frame parses and writes frame headers (Net.Frame.RoundTrip and
-- Net.Frame.Bounds have its theorems), and Net.Reader is `FrameReader`: bytes in, messages out.
-- Net.Reader.Failure is about what it refuses.
--
-- Machine integers: an int64_t is an integer (ℤ) and an unsigned word a natural number; wrap-around
-- is written out (`% 2 ^ 64`) where the source relies on it. Byte buffers are lists.
-- Fuel: the loop of fixed.hpp that writes decimal digits runs on twenty rounds, since a 64-bit magnitude
-- has at most twenty digits; that of checksum.hpp on one round more than the magnitude itself, since
-- every round divides it by ten; the loop of `trim` runs on one round more than the side has levels, since every round
-- but the last removes a level; the loop of `FrameReader::next` runs on one round more than the buffer
-- has bytes, since every round consumes a frame. Both return an option, whose value is shown to be
-- there. The walk over the window of `ArraySide` has one round for each slot, and the loop of its
-- `for_each` one for each level and one more, since every round visits a level. In l3.hpp a probe takes
-- at most as many rounds as the table has slots, as in the source; the search for a vacant slot takes no
-- more, since a valid table has an unused slot; the walks along a queue have one round more than their
-- level counts orders, return an option, and are shown to end; `next_pow2` doubles at most as often as
-- the number asked for. The sums of quantities in l3.hpp, which the
-- source does not check, are cut off to int64_t at every step (`to_int64`): the theorems that compare
-- them with exact sums have the hypothesis that the quantities at each price fit int64_t together.
--
-- Not modelled: `apply_mask` of net/ws_frame.hpp; histogram.hpp, consolidated.hpp,
-- json.hpp, capture.hpp, replay.hpp, venues/ and the rest of net/ (the feed uses
-- of its decoder only what its parameter states); src/net/ (sockets and TLS), tools/, examples/,
-- bench/, fuzz/ and tests/, which are input and output or clients of the library.
pub mod Book
pub mod Checksum
pub mod Common
pub mod Divergence
pub mod Execution
pub mod Feed
pub mod Fixed
pub mod L3
pub mod Net
pub mod Sequence
pub mod Types
pub mod Venue
