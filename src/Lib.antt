-- ===== src/Lib.antt =====
-- A model of xbtc, a Bitcoin node in C++: its encodings, its script machine, its block tree and its
-- view of the unspent coins, with the theorems that make them correct.
--
-- The parts of the program and the modules that model them:
--   Base     numbers, integers, lists, bits: what the other modules share.
--   Stream   the byte streams of the xul library, which is not part of the repository: the record
--            Streams of operations and of their documented laws, a parameter of all that reads or
--            writes; bytes_streams shows that the laws can be met.
--   Serial   VarEncoding of src/util/serialization.hpp and .cpp: compact sizes, variable-length
--            integers, strings and lists with their limits.
--   Data     src/data: transactions, block headers, blocks, index entries, block files and coins,
--            with the operators that write and read them and the status of a block.
--   Script   src/script: script numbers, the stack, the functions of the opcodes, the table of
--            functions, ScriptVM::eval and the writers of script parts. The signature checker and
--            the digests are parameters.
--   Chain    the skip list of BlockIndex (src/data/Block.cpp), BlockChain and
--            findLastCommonAncestor (src/storage/BlockChain.cpp). A block is the number that names
--            it, and the tree gives its height, parent and skip pointer.
--   Coins    CoinView (src/storage/CoinView.cpp) over a database that is a map of coins, with the coins
--            that writeCoins of src/storage/CoinDB.cpp writes and erases.
--   Cache    BlockCache (src/storage/BlockCache.cpp): the index of the blocks over Data, and the best
--            chain of Chain and the coins of Coins as it connects blocks. The validator and the
--            proof of work are parameters.
--   Net      the frames of messages (src/net/MessageCodec.cpp), over the streams of Stream, with
--            the digest as a parameter, and NodeSyncInfo (src/net/BlockSynchronizer.cpp): the blocks to ask
--            a node for, over Cache and Chain.
--   Arith    base_uint (src/util/arith_uint256.hpp and .cpp) as a list of 32-bit words, the lowest
--            first: its operators, bits and set_compact.
--   Consensus
--            src/storage/Consensus.cpp over Arith, and checkProofOfWork of src/storage/Validator.cpp. The
--            shift of a uint256 of the xul library is a parameter.
--   Validator
--            the checks of transactions of src/storage/Validator.cpp, over Coins and Script; it fills the
--            interface that Cache has of a validator. The checker of signatures is a parameter.
--   Merkle   MerkleTree (src/data/MerkleTree.cpp), with the digest of two values as a parameter.
--   Hash     SipHasher (src/util/Hasher.cpp).
-- A definition has the name of the function it models, in this library's spelling: read_transaction
-- is the operator>> of a Transaction, script_check_multi_sig is script_checkMultiSig.
--
-- Numbers: an unsigned integer of w bits is a natural number, with its wrap-around written out; a
-- uint256 is a number below 2 ^ 256; in the encodings a signed integer is its bit pattern, in scripts
-- it is an integer. A std::string is the list of its bytes. The build leaves assertions on, so a
-- failed assertion ends the process: it is `none`, or `failed` for a run of a script, and so is
-- undefined behaviour. A stream that goes bad is `none` as well, since no caller reads on from it;
-- in a script it ends the loop. A buffer of messages is of less than 2 ^ 31 bytes, for its size is an
-- int. A message that the encoder's buffer of 2 ^ 20 bytes has no room for is `none`.
--
-- Fuel: readInteger has eleven rounds, enough for 64 bits (read_integer_loop-ends_64); eval has one
-- round more than there are bytes (eval-ends), and so has the decoder of messages, of which each takes
-- 24 bytes or more; getAncestor, setTip, getLocator and findLastCommonAncestor have the height of
-- their block, which every round lowers, and their theorems give the result.
--
-- Not modelled: the network (src/net) above the frames and NodeSyncInfo; the databases and files below the coins and
-- the index (LevelDB, ObjectDB, CoinDB but for writeCoins, BlockIndexDB, BlockStorage), which are input and
-- output; keys and signatures, the
-- chain parameters and the application itself, which the model has not reached.
pub mod Base
pub mod Stream
pub mod Serial
pub mod Data
pub mod Script
pub mod Chain
pub mod Coins
pub mod Cache
pub mod Net
pub mod Hash
pub mod Arith
pub mod Consensus
pub mod Validator
pub mod Merkle
